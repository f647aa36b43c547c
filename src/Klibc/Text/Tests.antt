-- ===== src/Klibc/Text/Tests.antt =====
-- The theorems on strings at concrete inputs.
use m68k_system.Common.{
  ℕ, ◌+◌, ◌≡◌, ◌<◌, ◌⊎◌, refl, inr, Store, arith, pos, ℤ, some, List, [], ◌∷◌, ◌++◌, get_or,
}
use mathlib.Core.Logic.{◌↔◌}
use m68k_system.Klibc.Text.{strlen, strcpy, strcat, strchr, strrchr, strcmp, strncpy}
use m68k_system.Klibc.Text.Strings.{CString}
use m68k_system.Klibc.Text.Length.{strlen-length}
use m68k_system.Klibc.Text.Copying.{Copies, Padded, strcpy-Copies, strcat-Copies, strncpy-Padded}
use m68k_system.Klibc.Text.Order.{strcmp-eq}
use m68k_system.Klibc.Text.Search.{strchr-first, strrchr-last}

-- "abca" at 10 and "abd" at 20; zeros elsewhere.
abbrev bytes : Store
bytes a =
    get_or
      (0 ∷ 0 ∷ 0 ∷ 0 ∷ 0 ∷ 0 ∷ 0 ∷ 0 ∷ 0 ∷ 0 ∷ 97 ∷ 98 ∷ 99 ∷ 97 ∷ 0 ∷ 0 ∷ 0 ∷ 0 ∷ 0 ∷ 0 ∷ 97 ∷ 98
        ∷ 100 ∷ [])
      a 0

abbrev abca : List ℕ
abca = 97 ∷ 98 ∷ 99 ∷ 97 ∷ []

abbrev abd : List ℕ
abd = 97 ∷ 98 ∷ 100 ∷ []

at_10 : CString bytes 10 abca
at_10 = (refl, omega arith, (refl, omega arith, (refl, omega arith, (refl, omega arith, refl))))

at_20 : CString bytes 20 abd
at_20 = (refl, omega arith, (refl, omega arith, (refl, omega arith, refl)))

strlen-length_example : strlen 9 10 bytes ≡ some 4
strlen-length_example = strlen-length 9 10 abca bytes at_10 (omega arith)

strcpy-Copies_example : (m' : Store) × (strcpy 9 50 10 bytes ≡ some m') × Copies 50 abca bytes m'
strcpy-Copies_example = strcpy-Copies 9 50 10 abca bytes at_10 (inr (omega arith)) (omega arith)

strcat-Copies_example :
    (m' : Store) × (strcat 9 20 10 bytes ≡ some m')
    × CString m' 20 (abd ++ abca)
    × ((a : ℕ) → (a < 20) ⊎ (20 + 3 + 4 < a) → m' a ≡ bytes a)
strcat-Copies_example =
    strcat-Copies 9 20 10 abd abca bytes at_20 at_10 (inr (omega arith)) (omega arith) (omega arith)

strncpy-Padded_example : Padded 6 50 abca bytes (strncpy 50 10 6 bytes)
strncpy-Padded_example = strncpy-Padded 6 50 10 abca bytes at_10 (inr (omega arith))

strcmp-eq_example : (r : ℤ) × (strcmp 9 10 20 bytes ≡ some r) × ((r ≡ pos 0) ↔ (abca ≡ abd))
strcmp-eq_example = strcmp-eq 9 10 20 abca abd bytes at_10 at_20 (omega arith)

strchr-first_example : strchr 9 10 98 bytes ≡ some 11
strchr-first_example = strchr-first 9 10 98 abca bytes at_10 (omega arith)

strrchr-last_example : strrchr 9 10 97 bytes ≡ some 13
strrchr-last_example = strrchr-last 9 10 97 abca bytes at_10 (omega arith)
