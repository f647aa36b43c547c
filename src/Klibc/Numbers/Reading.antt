-- ===== src/Klibc/Numbers/Reading.antt =====
-- strtoul reads numbers back.

use m68k_system.Common.{
  ℕ, zero, suc, ◌+◌, ◌-◌, ◌*◌, ◌%◌, ◌^◌, ◌≤◌, ◌<◌, ◌≡◌, refl, ap, Bool, Bool-cases, inl, inr, true,
  false, ◌&&◌, none, some, List, [], ◌∷◌, ltb, leb, ◌==◌, if◌then◌else◌, length, arith, eq_of_eqb,
}
use m68k_system.Klibc.Numbers.{
  digit_of, digit_loop, is_space, skip_spaces, read_sign, is_hex_prefix, strtoul,
}

abbrev pub AreDigits : ℕ → List ℕ → Type 0
AreDigits base [] = Unit {0}
AreDigits base (d ∷ ds) = (d < base) × AreDigits base ds

-- The characters 0 to 9 and a to z for digits, and the number that digits stand for after `n`.
abbrev char_of : ℕ → ℕ
char_of d = if ltb d 10 then b'0' + d else b'a' + d - 10

abbrev pub shown : List ℕ → List ℕ
shown [] = []
shown (d ∷ ds) = char_of d ∷ shown ds

abbrev pub value_from : ℕ → ℕ → List ℕ → ℕ
value_from base n [] = n
value_from base n (d ∷ ds) = value_from base (n * base + d) ds

le_mul : (n base : ℕ) → 1 ≤ base → n ≤ n * base
le_mul n zero h = absurd (omega arith)
le_mul n (suc b) h = omega arith

value_from-le : (base n : ℕ) (ds : List ℕ) → 1 ≤ base → n ≤ value_from base n ds
value_from-le base n [] h = omega arith
value_from-le base n (d ∷ ds) h =
    omega (arith, value_from-le base (n * base + d) ds h, le_mul n base h)

length-shown : (ds : List ℕ) → length (shown ds) ≡ length ds
length-shown [] = refl
length-shown (d ∷ ds) = ap suc (length-shown ds)

digit_of-char_of : (d : ℕ) → d < 36 → digit_of (char_of d) ≡ d
digit_of-char_of d h = ground arith

digit_loop-value :
    (base : ℕ) (ds : List ℕ) (n at : ℕ) (found : Bool)
    → 2 ≤ base
    → base ≤ 36
    → AreDigits base ds
    → value_from base n ds < 2 ^ 32
    → digit_loop base false (shown ds) n false found at
      ≡ record { value = value_from base n ds; end_at = some (at + length ds); errno = none }
unfolding digit_loop
digit_loop-value base [] n at found lo hi digits small =
    let e : at + 0 ≡ at = omega arith in rw e refl
digit_loop-value base (d ∷ ds) n at found lo hi digits small =
    let (low, later) = digits in
    let next = n * base + d in
    let below = value_from-le base next ds (omega arith) in
    let known = digit_of-char_of d (omega arith) in
    let valid : leb base d ≡ false = ground arith in
    let fits : leb (2 ^ 32) (n * base) ≡ false = ground arith in
    let same : (n * base % 2 ^ 32 + d) % 2 ^ 32 ≡ next = omega arith in
    let end_at : at + suc (length ds) ≡ at + 1 + length ds = omega arith in
    rw (known, valid, fits, same, end_at)
      (digit_loop-value base ds next (at + 1) true lo hi later small)

-- The first character of a number is no space and no sign, and the first two are no prefix.
skip_spaces-shown : (ds : List ℕ) → AreDigits 36 ds → skip_spaces (shown ds) ≡ shown ds
unfolding skip_spaces
skip_spaces-shown [] h = refl
skip_spaces-shown (d ∷ ds) h =
    let low = h.0 in let other : is_space (char_of d) ≡ false = ground arith in rw other refl

read_sign-shown : (ds : List ℕ) → AreDigits 36 ds → read_sign (shown ds) ≡ (false, shown ds)
unfolding read_sign
read_sign-shown [] h = refl
read_sign-shown (d ∷ ds) h =
    let low = h.0 in
    let minus : (char_of d == b'-') ≡ false = ground arith in
    let plus : (char_of d == b'+') ≡ false = ground arith in rw (minus, plus) refl

is_hex_prefix-shown : (ds : List ℕ) → AreDigits 16 ds → is_hex_prefix (shown ds) ≡ false
unfolding is_hex_prefix
is_hex_prefix-shown [] h = refl
is_hex_prefix-shown (d ∷ []) h = refl
is_hex_prefix-shown (d ∷ e ∷ ds) h = let low = h.1.0 in ground arith

AreDigits-le : (base : ℕ) (ds : List ℕ) → base ≤ 36 → AreDigits base ds → AreDigits 36 ds
AreDigits-le base [] hi h = tt
AreDigits-le base (d ∷ ds) hi h = let low = h.0 in (omega arith, AreDigits-le base ds hi h.1)

no_prefix :
    (base : ℕ) (ds : List ℕ)
    → AreDigits base ds
    → ((base == 16) && is_hex_prefix (shown ds)) ≡ false
no_prefix base ds h = elim (Bool-cases (base == 16)) [
  | inl sixteen ↦
      let e = eq_of_eqb base 16 sixteen in
      let h16 : AreDigits 16 ds = rw e at h in rw (sixteen, is_hex_prefix-shown ds h16) refl
  | inr other ↦ rw other refl
]

-- For a base from 2 to 36 and digits of it that stand for a 32-bit number: strtoul reads the number from its
-- characters, comes to the end of the string, and leaves errno alone.
pub strtoul-shown :
    (base : ℕ) (ds : List ℕ)
    → 2 ≤ base
    → base ≤ 36
    → AreDigits base ds
    → value_from base 0 ds < 2 ^ 32
    → strtoul (shown ds) base
      ≡ record { value = value_from base 0 ds; end_at = some (length ds); errno = none }
unfolding strtoul
strtoul-shown base ds lo hi digits small =
    let wide = AreDigits-le base ds hi digits in
    let given : (base == 0) ≡ false = ground arith in
    let low : ltb base 2 ≡ false = ground arith in
    let high : ltb 36 base ≡ false = ground arith in
    let start : length (shown ds) - length (shown ds) ≡ 0 = omega arith in
    let read = digit_loop-value base ds 0 0 false lo hi digits small in
    let front : 0 + length ds ≡ length ds = omega arith in
    rw
      (
        skip_spaces-shown ds wide,
        read_sign-shown ds wide,
        given,
        low,
        high,
        no_prefix base ds digits,
        start,
      )
      (rw front at read)
