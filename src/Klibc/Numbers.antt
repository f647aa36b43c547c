-- ===== src/Klibc/Numbers.antt =====
-- strtoul of ayumos/klibc/stdlib.c. A string is the list of its bytes, without the zero.
mod Reading
mod Tests
use m68k_system.Common.{
  ℕ, zero, suc, ◌+◌, ◌-◌, ◌*◌, ◌%◌, ◌^◌, Bool, true, false, not, ◌&&◌, ◌||◌, Option, none, some,
  List, [], ◌∷◌, ltb, leb, ◌==◌, if◌then◌else◌, length, Code, einval, erange,
}

-- The result, the offset that is stored through `endptr`, and the value that `errno` is set to.
pub record Parsed : Type 0 where
  pub value : ℕ
  pub end_at : Option ℕ
  pub errno : Option Code

-- The value of a digit; 255 is no digit of any base.
abbrev pub digit_of : ℕ → ℕ
digit_of c =
    if leb b'0' c && leb c b'9'
    then c - b'0'
    else if leb b'a' c && leb c b'z'
    then c - b'a' + 10
    else if leb b'A' c && leb c b'Z'
    then c - b'A' + 10
    else 255

-- The loop over the digits, from offset `at` on.
pub digit_loop : ℕ → Bool → List ℕ → ℕ → Bool → Bool → ℕ → Parsed
digit_loop base neg [] n overflow found at =
    if overflow
    then record { value = 2 ^ 32 - 1; end_at = some at; errno = some erange }
    else record { value = if neg then (2 ^ 32 - n) % 2 ^ 32 else n; end_at = some at; errno = none }
digit_loop base neg (c ∷ cs) n overflow found at =
    let wide = n * base in
    let digit = digit_of c in
    let rest =
      digit_loop base neg cs ((wide % 2 ^ 32 + digit) % 2 ^ 32) (overflow || leb (2 ^ 32) wide) true
        (at + 1) in
    if leb base digit
    then record { value = n; end_at = some (if found then at else 0); errno = none }
    else rest

abbrev pub is_space : ℕ → Bool
is_space c = (c == 32) || (c == 9) || (c == 13) || (c == 10)

pub skip_spaces : List ℕ → List ℕ
skip_spaces [] = []
skip_spaces (c ∷ cs) = let rest = skip_spaces cs in if is_space c then rest else c ∷ cs

-- Whether there is a minus, and what follows the sign.
pub read_sign : List ℕ → Bool × List ℕ
read_sign [] = (false, [])
read_sign (c ∷ cs) =
    if c == b'-' then (true, cs) else if c == b'+' then (false, cs) else (false, c ∷ cs)

pub is_hex_prefix : List ℕ → Bool
is_hex_prefix [] = false
is_hex_prefix (c ∷ []) = false
is_hex_prefix (c ∷ d ∷ cs) = (c == b'0') && ((d == b'x') || (d == b'X'))

pub starts_with_zero : List ℕ → Bool
starts_with_zero [] = false
starts_with_zero (c ∷ cs) = c == b'0'

-- The base that a zero stands for.
pub base_for : ℕ → List ℕ → ℕ
unfolding is_hex_prefix starts_with_zero
base_for base s =
    if not (base == 0)
    then base
    else if starts_with_zero s
    then (if is_hex_prefix s then 16 else 8)
    else 10

pub drop_two : List ℕ → List ℕ
drop_two [] = []
drop_two (c ∷ []) = []
drop_two (c ∷ d ∷ cs) = cs

-- strtoul, for a base that is not negative.
pub strtoul : List ℕ → ℕ → Parsed
unfolding digit_loop skip_spaces read_sign is_hex_prefix base_for drop_two
strtoul s base =
    let (neg, unsigned) = read_sign (skip_spaces s) in
    let radix = base_for base unsigned in
    let digits = if (radix == 16) && is_hex_prefix unsigned then drop_two unsigned else unsigned in
    if not (base == 0) && (ltb base 2 || ltb 36 base)
    then record { value = 0; end_at = none; errno = some einval }
    else digit_loop radix neg digits 0 false false (length s - length digits)
