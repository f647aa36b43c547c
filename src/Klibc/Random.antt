-- ===== src/Klibc/Random.antt =====
-- rand, rand32 and srand of ayumos/klibc/stdlib.c. The state `g_rand_next` is a word of 32 bits, and the functions
-- return it as a signed number beside its new value.
mod Tests
use m68k_system.Common.{ℕ, ◌+◌, ◌-◌, ◌*◌, ◌%◌, ◌^◌, ltb, if◌then◌else◌, ℤ, pos, negsuc}

-- RAND_LCG_MULTIPLIER and RAND_LCG_INCREMENT
abbrev rand_lcg_multiplier : ℕ
rand_lcg_multiplier = 1103515245

abbrev rand_lcg_increment : ℕ
rand_lcg_increment = 12345

abbrev to_s32 : ℕ → ℤ
to_s32 n = if ltb n (2 ^ 31) then pos n else negsuc (2 ^ 32 - 1 - n)

-- rand
pub rand : ℕ → ℤ × ℕ
rand g_rand_next =
    let g = (g_rand_next * rand_lcg_multiplier + rand_lcg_increment) % 2 ^ 32 in (to_s32 g, g)

-- rand32
pub rand32 : ℕ → ℤ × ℕ
rand32 g_rand_next =
    let g = (g_rand_next * rand_lcg_multiplier + rand_lcg_increment) % 2 ^ 32 in (to_s32 g, g)

-- srand, for a seed as a word: the new state.
abbrev pub srand : ℕ → ℕ
srand seed = seed
