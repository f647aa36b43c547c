-- ===== src/Common/Bits.antt =====
-- `bit_or` of a shifted number and what fits below it is their sum.
use Prim.Native.Nat.{
  ℕ, zero, suc, ◌+◌, ◌*◌, ◌/◌, ◌^◌, ◌≤◌, ◌<◌, max, bit_or, digits, bit_or-bitwise,
}
use native.Mathlib.Nat.{mul_assoc}
use mathlib.Core.Path.{◌≡◌, refl, ◌∙◌}
use native.Mathlib.Omega.{arith}

-- The digits of a multiple of 2 ^ k and of a number below that, counted by `n`.
joined : (k n a lo q : ℕ) → a ≡ q * 2 ^ k → lo < 2 ^ k → a ≤ n → digits (λ x. x) max n a lo ≡ a + lo
joined k zero a lo q shifted low enough = omega arith
joined k (suc n) zero lo q shifted low enough = omega arith
joined zero (suc n) (suc a) lo q shifted low enough =
    let rest =
      joined zero n (suc a / 2) (lo / 2) (suc a / 2) (omega arith) (omega arith) (omega arith) in
    omega (arith, rest)
joined (suc j) (suc n) (suc a) lo q shifted low enough =
    let twice : 2 ^ suc j ≡ 2 ^ j * 2 = omega arith in
    let whole : suc a ≡ q * 2 ^ j * 2 = shifted ∙ rw (twice, ← mul_assoc q (2 ^ j) 2) refl in
    let rest = joined j n (suc a / 2) (lo / 2) q (omega arith) (omega arith) (omega arith) in
    omega (arith, rest, whole)

-- A byte below a number that has been shifted by eight digits.
pub bit_or-byte : (hi lo : ℕ) → lo < 256 → bit_or (hi * 256) lo ≡ hi * 256 + lo
bit_or-byte hi lo h =
    bit_or-bitwise (hi * 256) lo ∙ joined 8 (hi * 256) (hi * 256) lo hi refl h (omega arith)
