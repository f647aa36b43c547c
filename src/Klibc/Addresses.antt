-- ===== src/Klibc/Addresses.antt =====
-- strtoipv4 of ayumos/klibc/string.c. A string is the list of its bytes, without the zero.
mod Tests
use m68k_system.Common.{
  ℕ, zero, suc, ◌+◌, ◌-◌, ◌*◌, ◌%◌, ◌^◌, Bool, true, false, ◌&&◌, ◌||◌, Option, none, some, List,
  [], ◌∷◌, ltb, leb, ◌==◌, if◌then◌else◌,
}

-- The loop over at most three digits: `part`, `j` and the string behind.
pub read_part : ℕ → ℕ → ℕ → List ℕ → ℕ × ℕ × List ℕ
read_part zero part j str = (part, j, str)
read_part (suc left) part j [] = (part, j, [])
read_part (suc left) part j (c ∷ cs) =
    let rest = read_part left ((part * 10 + (c - b'0')) % 2 ^ 16) (j + 1) cs in
    if leb b'0' c && leb c b'9' then rest else (part, j, c ∷ cs)

pub at_dot : List ℕ → Bool
at_dot [] = false
at_dot (c ∷ cs) = c == b'.'

pub behind_first : List ℕ → List ℕ
behind_first [] = []
behind_first (c ∷ cs) = cs

-- The loop over the parts; `left` of the four remain, and the last one is read where one remains.
pub parts_loop : ℕ → ℕ → List ℕ → Option ℕ
unfolding read_part at_dot behind_first
parts_loop zero ip str = none
parts_loop (suc left) ip str =
    let (part, j, rest) = read_part 3 0 0 str in
    let ip' = (ip * 256 % 2 ^ 32 + part) % 2 ^ 32 in
    let more = parts_loop left ip' (behind_first rest) in
    if ltb 255 part || (j == 0)
    then none
    else if at_dot rest
    then more
    else if left == 0
    then some ip'
    else none

-- strtoipv4: the address that is stored, `none` where the result is -1. On this machine, which is big-endian,
-- N2BE32 changes nothing.
pub strtoipv4 : List ℕ → Option ℕ
unfolding parts_loop
strtoipv4 str = parts_loop 4 0 str
