-- ===== src/Klibc/Numbers/Tests.antt =====
-- Numbers read.
use m68k_system.Common.{ℕ, ◌≡◌, refl, arith, some, none, List, [], ◌∷◌, length}
use m68k_system.Klibc.Numbers.{strtoul}
use m68k_system.Klibc.Numbers.Reading.{shown, value_from, strtoul-shown}

-- c, 0, f, 15 of base 16
abbrev digits : List ℕ
digits = 12 ∷ 0 ∷ 15 ∷ []

strtoul-shown_example :
    strtoul (shown digits) 16
    ≡ record { value = value_from 16 0 digits; end_at = some (length digits); errno = none }
strtoul-shown_example =
    strtoul-shown 16 digits (omega arith) (omega arith)
      (omega arith, (omega arith, (omega arith, tt))) (omega arith)

-- 4294967296: the last digit wraps, and errno is not set.
wraps :
    strtoul (shown (4 ∷ 2 ∷ 9 ∷ 4 ∷ 9 ∷ 6 ∷ 7 ∷ 2 ∷ 9 ∷ 6 ∷ [])) 10
    ≡ record { value = 0; end_at = some 10; errno = none }
unfolding strtoul
wraps = refl

-- "-5" and "-5 ": the sign counts only if no other character follows.
minus : strtoul (b'-' ∷ b'5' ∷ []) 10 ≡ record { value = 4294967291; end_at = some 2; errno = none }
unfolding strtoul
minus = refl

minus_space :
    strtoul (b'-' ∷ b'5' ∷ 32 ∷ []) 10 ≡ record { value = 5; end_at = some 2; errno = none }
unfolding strtoul
minus_space = refl
