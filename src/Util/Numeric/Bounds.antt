-- ===== src/Util/Numeric/Bounds.antt =====
-- The logarithms round down.
use m68k_system.Common.{ℕ, ◌+◌, ◌^◌, ◌≤◌, ◌<◌, arith}
use m68k_system.Util.Numeric.{log10, log2}

-- For a 32-bit number that is not zero, log10 is the exponent of the greatest power of ten that does not exceed it.
pub log10_bounds : (n : ℕ) → 0 < n → n < 2 ^ 32 → (10 ^ log10 n ≤ n) × (n < 10 ^ (log10 n + 1))
unfolding log10
log10_bounds n pos small = ground arith

-- For a 32-bit number that is not zero, log2 is the exponent of the greatest power of two that does not exceed it.
pub log2_bounds : (n : ℕ) → 0 < n → n < 2 ^ 32 → (2 ^ log2 n ≤ n) × (n < 2 ^ (log2 n + 1))
unfolding log2
log2_bounds n pos small = ground arith
