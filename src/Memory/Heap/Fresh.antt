-- ===== src/Memory/Heap/Fresh.antt =====
-- What first fit does to the list of blocks: the bytes it gives out were free and are used.
use m68k_system.Common.{
  ℕ, ◌+◌, ◌-◌, ◌≤◌, ◌<◌, ◌≡◌, refl, ap, inl, inr, true, false, List, [], ◌∷◌, ◌++◌, arith,
  Bool-cases, ltb, leb, length, ◌==◌,
}
use mathlib.Core.Path.{ap₂}
use m68k_system.Memory.Heap.{header_size}
use m68k_system.Memory.Heap.Chain.{
  Block, Allocated, Allocated-le, Owns, has_room, fit_offset, placed, carve, absorbed, after_free,
  release, IsMerged,
}

Allocated-carve :
    (n p len a : ℕ) (bs : List Block)
    → n ≤ len
    → p + header_size ≤ a
    → a < p + header_size + n
    → Allocated p (carve n len ++ bs) a
unfolding carve
Allocated-carve n p len a bs fit lo hi = elim (Bool-cases (ltb (header_size + 3) (len - n))) [
  | inl room ↦ rw room (inl (refl, lo, hi))
  | inr tight ↦ rw tight (inl (refl, lo, omega arith))
]

carve-later :
    (n p len a : ℕ) (bs : List Block)
    → n ≤ len
    → Allocated (p + len + header_size) bs a
    → Allocated p (carve n len ++ bs) a
unfolding carve
carve-later n p len a bs fit h = elim (Bool-cases (ltb (header_size + 3) (len - n))) [
  | inl room ↦
      let here : p + n + header_size + (len - n - header_size) + header_size
          ≡ p + len + header_size =
        ground arith in
      rw room (inr (inr (rw here h)))
  | inr tight ↦ rw tight (inr h)
]

-- The bytes given out lie in a used block afterwards.
pub placed-Allocated :
    (n p : ℕ) (bs : List Block) (a : ℕ)
    → has_room n bs ≡ true
    → p + fit_offset n bs ≤ a
    → a < p + fit_offset n bs + n
    → Allocated p (placed n bs) a
unfolding has_room fit_offset placed
placed-Allocated n p [] a r lo hi = cc
placed-Allocated n p ((true, len) ∷ bs) a r lo hi =
    inr (placed-Allocated n (p + len + header_size) bs a r (omega arith) (omega arith))
placed-Allocated n p ((false, len) ∷ bs) a r lo hi = elim (Bool-cases (leb n len)) [
  | inl fit ↦ rw fit (Allocated-carve n p len a bs (ground arith) (rw fit at lo) (rw fit at hi))
  | inr small ↦ rw small (
      inr (
        placed-Allocated n (p + len + header_size) bs a (rw small at r)
          (let l : p + (len + header_size + fit_offset n bs) ≤ a = rw small at lo in omega arith)
          (let l : a < p + (len + header_size + fit_offset n bs) + n = rw small at hi in
            omega arith)))
]

-- They lay in no used block before.
pub placed-unused :
    (n p : ℕ) (bs : List Block) (a : ℕ)
    → has_room n bs ≡ true
    → p + fit_offset n bs ≤ a
    → a < p + fit_offset n bs + n
    → ¬ Allocated p bs a
unfolding has_room fit_offset
placed-unused n p [] a r lo hi h = h
placed-unused n p ((true, len) ∷ bs) a r lo hi (inl h) = omega arith
placed-unused n p ((true, len) ∷ bs) a r lo hi (inr h) =
    placed-unused n (p + len + header_size) bs a r (omega arith) (omega arith) h
placed-unused n p ((false, len) ∷ bs) a r lo hi (inl h) = cc
placed-unused n p ((false, len) ∷ bs) a r lo hi (inr h) = elim (Bool-cases (leb n len)) [
  | inl fit ↦
      let l : a < p + header_size + n = rw fit at hi in
      let g : n ≤ len = ground arith in omega (arith, Allocated-le (p + len + header_size) a bs h)
  | inr small ↦
      placed-unused n (p + len + header_size) bs a (rw small at r)
        (let l : p + (len + header_size + fit_offset n bs) ≤ a = rw small at lo in omega arith)
        (let l : a < p + (len + header_size + fit_offset n bs) + n = rw small at hi in omega arith)
        h
]

-- Used bytes stay used.
pub placed-keeps :
    (n p : ℕ) (bs : List Block) (a : ℕ) → Allocated p bs a → Allocated p (placed n bs) a
unfolding placed
placed-keeps n p [] a h = h
placed-keeps n p ((true, len) ∷ bs) a (inl h) = inl h
placed-keeps n p ((true, len) ∷ bs) a (inr h) = inr (placed-keeps n (p + len + header_size) bs a h)
placed-keeps n p ((false, len) ∷ bs) a (inl h) = cc
placed-keeps n p ((false, len) ∷ bs) a (inr h) = elim (Bool-cases (leb n len)) [
  | inl fit ↦ rw fit (carve-later n p len a bs (ground arith) h)
  | inr small ↦ rw small (inr (placed-keeps n (p + len + header_size) bs a h))
]

-- The pointer given out can be freed.
pub placed-Owns :
    (n p : ℕ) (bs : List Block) → has_room n bs ≡ true → Owns p (p + fit_offset n bs) (placed n bs)
unfolding has_room fit_offset placed carve
placed-Owns n p [] r = cc
placed-Owns n p ((true, len) ∷ bs) r = inr (
    let e : p + (len + header_size + fit_offset n bs) ≡ p + len + header_size + fit_offset n bs =
      omega arith in
    rw e (placed-Owns n (p + len + header_size) bs r))
placed-Owns n p ((false, len) ∷ bs) r = elim (Bool-cases (leb n len)) [
  | inl fit ↦ elim (Bool-cases (ltb (header_size + 3) (len - n))) [
    | inl room ↦ rw (fit, room) (inl (refl, refl))
    | inr tight ↦ rw (fit, tight) (inl (refl, refl))
  ]
  | inr small ↦ rw small (
      inr (
        let e : p + (len + header_size + fit_offset n bs)
            ≡ p + len + header_size + fit_offset n bs =
          omega arith in
        rw e (placed-Owns n (p + len + header_size) bs (rw small at r))))
]

pub fit_offset-pos : (n : ℕ) (bs : List Block) → has_room n bs ≡ true → 8 ≤ fit_offset n bs
unfolding has_room fit_offset
fit_offset-pos n [] r = cc
fit_offset-pos n ((used, len) ∷ bs) r = ground (arith, fit_offset-pos n bs)

-- A block that no free block follows absorbs nothing.
absorbed-merged :
    (len : ℕ) (bs : List Block)
    → IsMerged ((false, len) ∷ bs)
    → (absorbed len bs ≡ len) × (after_free bs ≡ bs)
unfolding absorbed after_free
absorbed-merged len [] h = (refl, refl)
absorbed-merged len ((true, k) ∷ bs) h = (refl, refl)
absorbed-merged len ((false, k) ∷ bs) h = cc

IsMerged-tail : (b : Block) (bs : List Block) → IsMerged (b ∷ bs) → IsMerged bs
IsMerged-tail (true, len) bs h = h
IsMerged-tail (false, len) [] h = tt
IsMerged-tail (false, len) ((used, k) ∷ bs) h = h.1

release-carve :
    (n p len : ℕ) (bs : List Block)
    → n ≤ len
    → IsMerged ((false, len) ∷ bs)
    → release p (p + header_size) (carve n len ++ bs) ≡ (false, len) ∷ bs
unfolding release carve absorbed after_free
release-carve n p len bs fit h =
    let hit : (p + header_size == p + header_size) ≡ true = ground arith in
    elim (Bool-cases (ltb (header_size + 3) (len - n))) [
      | inl room ↦
          let whole : n + (len - n - header_size) + header_size ≡ len = ground arith in
          rw (room, hit, whole)
            (ap₂ (λ k r. (false, k) ∷ r) (absorbed-merged len bs h).0 (absorbed-merged len bs h).1)
      | inr tight ↦
          rw (tight, hit)
            (ap₂ (λ k r. (false, k) ∷ r) (absorbed-merged len bs h).0 (absorbed-merged len bs h).1)
    ]

-- To free what first fit has just given out restores the blocks, if no free blocks were neighbours.
pub release-placed :
    (n p : ℕ) (bs : List Block)
    → has_room n bs ≡ true
    → IsMerged bs
    → release p (p + fit_offset n bs) (placed n bs) ≡ bs
unfolding has_room fit_offset placed release
release-placed n p [] r h = cc
release-placed n p ((true, len) ∷ bs) r h =
    let miss : (p + (len + header_size + fit_offset n bs) == p + header_size) ≡ false =
      ground (arith, fit_offset-pos n bs) in
    let e : p + (len + header_size + fit_offset n bs) ≡ p + len + header_size + fit_offset n bs =
      omega arith in
    rw (miss, e) (ap (λ r. (true, len) ∷ r) (release-placed n (p + len + header_size) bs r h))
release-placed n p ((false, len) ∷ bs) r h = elim (Bool-cases (leb n len)) [
  | inl fit ↦ rw fit (release-carve n p len bs (ground arith) h)
  | inr small ↦
      let e : p + (len + header_size + fit_offset n bs) ≡ p + len + header_size + fit_offset n bs =
        omega arith in
      rw (small, e)
        (ap (λ r. (false, len) ∷ r)
          (release-placed n (p + len + header_size) bs (rw small at r)
            (IsMerged-tail (false, len) bs h)))
]

-- First fit makes at most one block more.
pub length-placed : (n : ℕ) (bs : List Block) → length (placed n bs) ≤ length bs + 1
unfolding placed carve
length-placed n [] = omega arith
length-placed n ((used, len) ∷ bs) = ground (arith, length-placed n bs)
