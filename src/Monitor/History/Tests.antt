-- ===== src/Monitor/History/Tests.antt =====
-- A history of two commands.
use m68k_system.Common.{
  ℕ, ◌≡◌, refl, arith, true, false, some, none, List, [], ◌∷◌, success, einval,
}
use m68k_system.Monitor.History.{History, history_init, history_clear, history_add, history_get_at}
use m68k_system.Monitor.History.Order.{
  IsValid, IsEmpty, Follows, history_add-Follows, history_clear-history_init,
}

abbrev help : List ℕ
help = b'h' ∷ []

abbrev dump : List ℕ
dump = b'd' ∷ []

abbrev full_one : History
full_one = record { item = some help ∷ some dump ∷ []; next = 1; len = 2 }

full_one-IsValid : IsValid full_one
full_one-IsValid = record { full = refl; inside = omega arith }

history_add-Follows_example : Follows full_one (some help) (history_add true full_one help)
history_add-Follows_example = history_add-Follows full_one help full_one-IsValid

history_clear-history_init_example :
    IsValid (history_clear full_one)
    × IsEmpty (history_clear full_one)
    × (history_init true true 2 ≡ (success, some (history_clear full_one)))
history_clear-history_init_example = history_clear-history_init full_one full_one-IsValid

-- Without memory the oldest command is lost.
forgets : history_get_at (history_add false full_one help) 0 ≡ none
unfolding history_get_at history_add
forgets = refl

too_short : history_init true true 0 ≡ (einval, none)
unfolding history_init
too_short = refl
