-- ===== src/Util/Checksum.antt =====
-- fletcher16 of ayumos/kernel/util/checksum.c. The bytes are a list; the running sums are 16-bit
-- words.
mod Sums
mod Tests
use Prim.Native.Nat.{bit_or}
use m68k_system.Common.{
  ℕ, zero, suc, ◌+◌, ◌-◌, ◌*◌, ◌/◌, ◌%◌, ◌^◌, List, [], ◌∷◌, ltb, if◌then◌else◌,
}

-- `sum2 += sum1 += *buf++`, on 16 bits.
pub add_byte : ℕ × ℕ → ℕ → ℕ × ℕ
add_byte s b = let s1 = (s.0 + b) % 2 ^ 16 in (s1, (s.1 + s1) % 2 ^ 16)

-- `sum = (sum & 0xff) + (sum >> 8)`
abbrev pub fold : ℕ → ℕ
fold s = s % 256 + s / 256

pub fold_both : ℕ × ℕ → ℕ × ℕ
fold_both s = (fold s.0, fold s.1)

-- The rounds of the outer loop: `left` is `tlen`, the bytes that are left before the next fold.
pub blocks : ℕ → ℕ × ℕ → List ℕ → ℕ × ℕ
unfolding add_byte fold_both
blocks left s [] = fold_both s
blocks (suc left) s (b ∷ bs) = blocks left (add_byte s b) bs
blocks zero s (b ∷ bs) = blocks 19 (add_byte (fold_both s) b) bs

-- fletcher16
pub fletcher16 : List ℕ → ℕ
unfolding blocks
fletcher16 [] = let s = fold_both (255, 255) in bit_or (s.1 * 256 % 2 ^ 16) s.0
fletcher16 (b ∷ bs) =
    let s = fold_both (blocks 20 (255, 255) (b ∷ bs)) in bit_or (s.1 * 256 % 2 ^ 16) s.0
