-- ===== src/Util/Checksum/Sums.antt =====
-- fletcher16 puts its reductions off for blocks of twenty bytes, and is still the Fletcher checksum.
use Prim.Native.Nat.{bit_or}
use m68k_system.Common.{
  ℕ, zero, suc, ◌+◌, ◌*◌, ◌/◌, ◌%◌, ◌^◌, ◌≤◌, ◌<◌, ◌≡◌, ◌∙◌, List, [], ◌∷◌, arith,
}
use m68k_system.Common.Bits.{bit_or-byte}
use m68k_system.Util.Checksum.{add_byte, fold, fold_both, blocks, fletcher16}

-- The two sums with no reduction at all.
unfoldable pub plain : ℕ × ℕ → List ℕ → ℕ × ℕ
plain s [] = s
plain s (b ∷ bs) = plain (s.0 + b, s.1 + (s.0 + b)) bs

abbrev pub AreBytes : List ℕ → Type 0
AreBytes [] = Unit {0}
AreBytes (b ∷ bs) = (b < 256) × AreBytes bs

-- Both sums leave the same remainders by 255.
abbrev Same : ℕ × ℕ → ℕ × ℕ → Type 0
Same s t = (s.0 % 255 ≡ t.0 % 255) × (s.1 % 255 ≡ t.1 % 255)

plain-Same : (s t : ℕ × ℕ) (bs : List ℕ) → Same s t → Same (plain s bs) (plain t bs)
unfolding plain
plain-Same s t [] h = h
plain-Same s t (b ∷ bs) h =
    plain-Same (s.0 + b, s.1 + (s.0 + b)) (t.0 + b, t.1 + (t.0 + b)) bs (omega arith)

-- Both sums fit 16 bits, and go on fitting for as many bytes.
abbrev Room : ℕ → ℕ × ℕ → Type 0
Room zero s = (s.0 < 2 ^ 16) × (s.1 < 2 ^ 16)
Room (suc left) s = Room left (s.0 + 255, s.1 + (s.0 + 255))

Room-le : (left : ℕ) (s t : ℕ × ℕ) → s.0 ≤ t.0 → s.1 ≤ t.1 → Room left t → Room left s
Room-le zero s t h k r = omega arith
Room-le (suc left) s t h k r =
    Room-le left (s.0 + 255, s.1 + (s.0 + 255)) (t.0 + 255, t.1 + (t.0 + 255)) (omega arith)
      (omega arith) r

Room-fits : (left : ℕ) (s : ℕ × ℕ) → Room left s → (s.0 < 2 ^ 16) × (s.1 < 2 ^ 16)
Room-fits zero s r = r
Room-fits (suc left) s r = omega (arith, Room-fits left (s.0 + 255, s.1 + (s.0 + 255)) r)

add_byte-exact :
    (left b : ℕ) (s : ℕ × ℕ)
    → Room (suc left) s
    → b < 256
    → add_byte s b ≡ (s.0 + b, s.1 + (s.0 + b))
unfolding add_byte
add_byte-exact left b s r h = ground (arith, Room-fits left (s.0 + 255, s.1 + (s.0 + 255)) r)

-- A fold keeps the remainders and leaves room for a block of twenty bytes.
fold_both-Same : (s : ℕ × ℕ) → Same (fold_both s) s
unfolding fold_both
fold_both-Same s = omega arith

fold_both-le :
    (s : ℕ × ℕ)
    → (s.0 < 2 ^ 16) × (s.1 < 2 ^ 16)
    → ((fold_both s).0 ≤ 510) × ((fold_both s).1 ≤ 510)
unfolding fold_both
fold_both-le s h = omega arith

Room-twenty : (s : ℕ × ℕ) → s.0 ≤ 510 → s.1 ≤ 510 → Room 20 s
Room-twenty s h k = Room-le 20 s (510, 510) h k (omega arith)

-- What a run of the loop gives: sums of the right remainders, at most 510.
record Sums (s : ℕ × ℕ) (bs : List ℕ) (out : ℕ × ℕ) : Type 0 where
  same : Same out (plain s bs)
  small : (out.0 ≤ 510) × (out.1 ≤ 510)

blocks-Sums :
    (left : ℕ) (s : ℕ × ℕ) (bs : List ℕ) → Room left s → AreBytes bs → Sums s bs (blocks left s bs)
unfolding blocks plain
blocks-Sums zero s [] r h = record { same = fold_both-Same s; small = fold_both-le s r }
blocks-Sums (suc left) s [] r h = record {
  same = fold_both-Same s;
  small = fold_both-le s (Room-fits (suc left) s r);
}
blocks-Sums (suc left) s (b ∷ bs) r h = rw (add_byte-exact left b s r h.0) (
    step (
      blocks-Sums left (s.0 + b, s.1 + (s.0 + b)) bs
        (Room-le left (s.0 + b, s.1 + (s.0 + b)) (s.0 + 255, s.1 + (s.0 + 255)) (omega arith)
          (omega arith) r)
        h.1))
  where
    step : {out : ℕ × ℕ} → Sums (s.0 + b, s.1 + (s.0 + b)) bs out → Sums s (b ∷ bs) out
    step x = record { same = x.same; small = x.small }
blocks-Sums zero s (b ∷ bs) r h =
    let t = fold_both s in
    let low = fold_both-le s r in
    let room = Room-twenty t low.0 low.1 in
    let t1 : ℕ × ℕ = (t.0 + b, t.1 + (t.0 + b)) in
    let x =
      blocks-Sums 19 t1 bs
        (Room-le 19 t1 (t.0 + 255, t.1 + (t.0 + 255)) (omega arith) (omega arith) room) h.1 in
    let near = fold_both-Same s in
    let y = plain-Same t1 (s.0 + b, s.1 + (s.0 + b)) bs (omega (arith, near)) in
    rw (add_byte-exact 19 b t room h.0)
      (record { same = (x.same.0 ∙ y.0, x.same.1 ∙ y.1); small = x.small })

-- The checksum of a pair of sums.
result : ℕ × ℕ → ℕ
result s = let t = fold_both s in bit_or (t.1 * 256 % 2 ^ 16) t.0

-- A checksum has the two sums, without reductions, as its bytes, but for multiples of 255.
abbrev pub IsChecksum : ℕ → ℕ × ℕ → Type 0
IsChecksum c t = (c / 256 ≤ 255) × (c % 256 % 255 ≡ t.0 % 255) × (c / 256 % 255 ≡ t.1 % 255)

result-IsChecksum : (s t : ℕ × ℕ) → s.0 ≤ 510 → s.1 ≤ 510 → Same s t → IsChecksum (result s) t
unfolding result fold_both
result-IsChecksum s t h k same =
    let lo : fold s.0 < 256 = omega arith in
    let hi : fold s.1 * 256 % 2 ^ 16 ≡ fold s.1 * 256 = omega arith in
    rw (hi, bit_or-byte (fold s.1) (fold s.0) lo) (omega arith)

-- For whatever bytes, no sum of fletcher16 wraps between two reductions: the low byte of the result
-- is the sum of the bytes, and its high byte the sum of the sums so far, both modulo 255.
pub fletcher16-IsChecksum :
    (bs : List ℕ) → AreBytes bs → IsChecksum (fletcher16 bs) (plain (0, 0) bs)
unfolding fletcher16 result plain
fletcher16-IsChecksum [] h =
    result-IsChecksum (255, 255) (0, 0) (omega arith) (omega arith) (omega arith)
fletcher16-IsChecksum (b ∷ bs) h =
    let x = blocks-Sums 20 (255, 255) (b ∷ bs) (omega arith) h in
    let y = plain-Same (255, 255) (0, 0) (b ∷ bs) (omega arith) in
    result-IsChecksum (blocks 20 (255, 255) (b ∷ bs)) (plain (0, 0) (b ∷ bs)) x.small.0 x.small.1
      (x.same.0 ∙ y.0, x.same.1 ∙ y.1)
