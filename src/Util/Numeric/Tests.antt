-- ===== src/Util/Numeric/Tests.antt =====
-- The logarithms at concrete numbers.
use m68k_system.Common.{◌+◌, ◌^◌, ◌≤◌, ◌<◌, arith}
use m68k_system.Util.Numeric.{log10, log2}
use m68k_system.Util.Numeric.Bounds.{log10_bounds, log2_bounds}

log10_bounds_example : (10 ^ log10 12345 ≤ 12345) × (12345 < 10 ^ (log10 12345 + 1))
log10_bounds_example = log10_bounds 12345 (omega arith) (omega arith)

log2_bounds_example : (2 ^ log2 12345 ≤ 12345) × (12345 < 2 ^ (log2 12345 + 1))
log2_bounds_example = log2_bounds 12345 (omega arith) (omega arith)
