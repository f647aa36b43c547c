-- ===== src/Klibc/Errors/Complete.antt =====
-- The header and strerror name the same errors.
use Prim.Native.String.{String}
use m68k_system.Common.{
  ℕ, ◌≡◌, refl, Bool, true, false, not, ◌||◌, List, [], ◌∷◌, ◌==◌, if◌then◌else◌, all_below,
}
use m68k_system.Klibc.Errors.{messages}
use m68k_system.Klibc.Errors.Codes.{error_numbers}

unfoldable has_number : List (String × ℕ) → ℕ → Bool
has_number [] n = false
has_number ((name, number) ∷ rest) n = (number == n) || has_number rest n

unfoldable has_message : List (ℕ × String) → ℕ → Bool
has_message [] n = false
has_message ((number, message) ∷ rest) n = (number == n) || has_message rest n

abbrev agree : ℕ → Bool
agree n =
    if has_number error_numbers n then has_message messages n else not (has_message messages n)

-- Up to 132, but for 0, the numbers of the header are those that strerror has a message for.
agree_table : all_below 133 (λ n. (n == 0) || agree n) ≡ true
unfolding all_below has_number has_message messages error_numbers
agree_table = refl
