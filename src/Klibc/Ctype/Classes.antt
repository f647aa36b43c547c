-- ===== src/Klibc/Ctype/Classes.antt =====
-- The table against a description of each class of ASCII.
use m68k_system.Common.{
  ℕ, ◌%◌, ◌≡◌, refl, Bool, true, false, not, ◌&&◌, ◌||◌, leb, ◌==◌, arith, all_below,
  all_below_sound, ℤ, pos, negsuc,
}
use m68k_system.Klibc.Ctype.{
  typetable, ctypeisname, CharType, upper, lower, alpha, digit, xdigit, space, print, graph, blank,
  cntrl, punct, alnum, flag, tolower, toupper,
}

abbrev between : ℕ → ℕ → ℕ → Bool
between lo hi c = leb lo c && leb c hi

abbrev letter : ℕ → Bool
letter c = between b'A' b'Z' c || between b'a' b'z' c

abbrev decimal : ℕ → Bool
decimal c = between b'0' b'9' c

-- The classes of ASCII; no byte above 127 is in any.
unfoldable pub in_class : CharType → ℕ → Bool
in_class upper c = between b'A' b'Z' c
in_class lower c = between b'a' b'z' c
in_class alpha c = letter c
in_class digit c = decimal c
in_class xdigit c = decimal c || between b'A' b'F' c || between b'a' b'f' c
in_class space c = (c == 32) || between 9 13 c
in_class print c = between 32 126 c
in_class graph c = between 33 126 c
in_class blank c = (c == 32) || (c == 9)
in_class cntrl c = between 0 31 c || (c == 127)
in_class punct c = between 33 126 c && not (letter c || decimal c)
in_class alnum c = letter c || decimal c

abbrev same : Bool → Bool → Bool
same true b = b
same false b = not b

same-eq : (a b : Bool) → same a b ≡ true → a ≡ b
same-eq true true h = refl
same-eq false false h = refl
same-eq true false h = ground arith
same-eq false true h = ground arith

abbrev says : CharType → ℕ → Bool
says k c = same (not (ctypeisname c (flag k) == 0)) (in_class k c)

class_table : (k : CharType) → all_below 256 (says k) ≡ true
unfolding all_below in_class ctypeisname typetable flag
class_table upper = refl
class_table lower = refl
class_table alpha = refl
class_table digit = refl
class_table xdigit = refl
class_table space = refl
class_table print = refl
class_table graph = refl
class_table blank = refl
class_table cntrl = refl
class_table punct = refl
class_table alnum = refl

-- For every character and class: the test gives a number that is not zero exactly where the low byte
-- of the character is in the class as ASCII has it.
pub ctypeisname-in_class :
    (k : CharType) (c : ℕ) → not (ctypeisname c (flag k) == 0) ≡ in_class k (c % 256)
unfolding ctypeisname
ctypeisname-in_class k c =
    let e : c % 256 % 256 ≡ c % 256 = omega arith in
    let h =
      same-eq (not (ctypeisname (c % 256) (flag k) == 0)) (in_class k (c % 256))
        (all_below_sound 256 (says k) (c % 256) (class_table k) (omega arith)) in
    rw e at h

-- For every character: tolower gives the same after toupper as without it, and toupper the same after
-- tolower.
pub tolower-toupper :
    (c : ℤ) → (tolower (toupper c) ≡ tolower c) × (toupper (tolower c) ≡ toupper c)
unfolding tolower toupper
tolower-toupper (pos c) = ground arith
tolower-toupper (negsuc c) = (refl, refl)
