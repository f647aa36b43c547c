-- ===== src/Util/Numeric.antt =====
-- The integer logarithms of ayumos/kernel/util/numeric.c.
mod Bounds
mod Tests
use m68k_system.Common.{ℕ, ◌+◌, ◌/◌, ◌^◌, ltb, leb, if◌then◌else◌}

-- log10
pub log10 : ℕ → ℕ
log10 n =
    if ltb n 10
    then 0
    else if ltb n 100
    then 1
    else if ltb n 1000
    then 2
    else if ltb n 10000
    then 3
    else if ltb n 100000
    then 4
    else if ltb n 1000000
    then 5
    else if ltb n 10000000
    then 6
    else if ltb n 100000000
    then 7
    else if ltb n 1000000000
    then 8
    else 9

-- One step of log2: where `n` is at least 2 ^ k, it is shifted down by `k`, which is counted.
abbrev halve : ℕ → ℕ × ℕ → ℕ × ℕ
halve k s = if leb (2 ^ k) s.1 then (s.0 + k, s.1 / 2 ^ k) else s

-- log2
pub log2 : ℕ → ℕ
log2 n = let s = halve 2 (halve 4 (halve 8 (halve 16 (0, n)))) in if leb 2 s.1 then s.0 + 1 else s.0
