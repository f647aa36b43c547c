-- ===== src/Memory/Heap/Resize/Blocks.antt =====
-- Facts on the list of blocks that the loops over data need.
use m68k_system.Common.{
  ℕ, ◌+◌, ◌-◌, ◌≤◌, ◌<◌, ◌^◌, ◌≡◌, ◌⊎◌, inl, inr, refl, ap, true, false, Bool-cases, ltb, leb, not,
  ◌&&◌, ◌==◌, arith, List, [], ◌∷◌, Store, if◌then◌else◌,
}
use m68k_system.Memory.Heap.{header_size, header_of, magic, size, used_magic}
use m68k_system.Memory.Heap.Chain.{
  Block, Chain, Chain-lt, Allocated, Allocated-le, Owns, Owns-le, release, absorbed, after_free,
  placed, carve, has_room, fit_offset,
}
use m68k_system.Memory.Heap.Fresh.{fit_offset-pos}

-- A change of data leaves the chain alone.
pub Chain-data :
    (m m' : Store) (p limit : ℕ) (bs : List Block)
    → Chain m p bs limit
    → ((a : ℕ) → p ≤ a → ¬ Allocated p bs a → m' a ≡ m a)
    → Chain m' p bs limit
Chain-data m m' p limit [] c same =
    ground (arith, same p (omega arith) (λ h. h), same (p + 4) (omega arith) (λ h. h))
Chain-data m m' p limit ((used, len) ∷ bs) c same = (
  ground (arith, same p (omega arith) (free p (omega arith))),
  ground (arith, same (p + 4) (omega arith) (free (p + 4) (omega arith))),
  c.2,
  Chain-data m m' (p + len + header_size) limit bs c.3
      (λ a h k. same a (omega arith) (later a h k)),
)
  where
    free : (a : ℕ) → a < p + header_size → ¬ Allocated p ((used, len) ∷ bs) a
    free a h (inl k) = omega arith
    free a h (inr k) = omega (arith, Allocated-le (p + len + header_size) a bs k)

    later :
        (a : ℕ)
        → p + len + header_size ≤ a
        → ¬ Allocated (p + len + header_size) bs a
        → ¬ Allocated p ((used, len) ∷ bs) a
    later a h k (inl l) = omega arith
    later a h k (inr l) = k l

-- The length of the block with its data at `ptr`.
unfoldable pub data_len : ℕ → ℕ → List Block → ℕ
data_len p ptr [] = 0
data_len p ptr ((used, len) ∷ bs) =
    if used && (ptr == p + header_size) then len else data_len (p + len + header_size) ptr bs

-- The header in front of the data of a used block.
pub Owns-header :
    (m : Store) (p ptr limit : ℕ) (bs : List Block)
    → Chain m p bs limit
    → limit < 2 ^ 32
    → Owns p ptr bs
    → (magic m (header_of ptr) ≡ used_magic) × (size m (header_of ptr) ≡ data_len p ptr bs)
unfolding data_len
Owns-header m p ptr limit [] c small o = absurd o
Owns-header m p ptr limit ((true, len) ∷ bs) c small (inl o) =
    let above = Chain-lt m (p + len + header_size) limit bs c.3 in
    let here : header_of ptr ≡ p = omega (arith, above) in
    let hit : (ptr == p + header_size) ≡ true = ground arith in rw (here, hit) (c.0, c.1)
Owns-header m p ptr limit ((false, len) ∷ bs) c small (inl o) = cc
Owns-header m p ptr limit ((used, len) ∷ bs) c small (inr o) =
    let miss : (used && (ptr == p + header_size)) ≡ false =
      ground (arith, Owns-le (p + len + header_size) ptr bs o) in
    rw miss (Owns-header m (p + len + header_size) ptr limit bs c.3 small o)

-- The data of a block that is owned is allocated.
pub Owns-Allocated :
    (p ptr a : ℕ) (bs : List Block)
    → Owns p ptr bs
    → ptr ≤ a
    → a < ptr + data_len p ptr bs
    → Allocated p bs a
unfolding data_len
Owns-Allocated p ptr a [] o lo hi = o
Owns-Allocated p ptr a ((true, len) ∷ bs) (inl o) lo hi =
    let hit : (ptr == p + header_size) ≡ true = ground arith in
    let below : a < ptr + len = rw hit at hi in inl (refl, omega arith, omega arith)
Owns-Allocated p ptr a ((false, len) ∷ bs) (inl o) lo hi = cc
Owns-Allocated p ptr a ((used, len) ∷ bs) (inr o) lo hi =
    let miss : (used && (ptr == p + header_size)) ≡ false =
      ground (arith, Owns-le (p + len + header_size) ptr bs o) in
    inr (Owns-Allocated (p + len + header_size) ptr a bs o lo (rw miss at hi))

Allocated-absorbed :
    (p len a : ℕ) (bs : List Block)
    → Allocated (p + len + header_size) bs a
    → Allocated (p + absorbed len bs + header_size) (after_free bs) a
unfolding absorbed after_free
Allocated-absorbed p len a [] h = h
Allocated-absorbed p len a ((true, k) ∷ bs) h = h
Allocated-absorbed p len a ((false, k) ∷ bs) (inl h) = cc
Allocated-absorbed p len a ((false, k) ∷ bs) (inr h) =
    let e : p + (len + k + header_size) + header_size ≡ p + len + header_size + k + header_size =
      omega arith in
    Allocated-absorbed p (len + k + header_size) a bs (rw e h)

-- To free a block leaves the data of every other block allocated.
pub release-Allocated :
    (p ptr a : ℕ) (bs : List Block)
    → Owns p ptr bs
    → Allocated p bs a
    → (a < ptr) ⊎ (ptr + data_len p ptr bs ≤ a)
    → Allocated p (release p ptr bs) a
unfolding release data_len
release-Allocated p ptr a [] o h out = h
release-Allocated p ptr a ((true, len) ∷ bs) (inl o) h out =
    let hit : (ptr == p + header_size) ≡ true = ground arith in
    rw hit (inr (Allocated-absorbed p len a bs (rest h (rw hit at out))))
  where
    rest :
        Allocated p ((true, len) ∷ bs) a
        → (a < ptr) ⊎ (ptr + len ≤ a)
        → Allocated (p + len + header_size) bs a
    rest (inl k) (inl l) = absurd (omega arith)
    rest (inl k) (inr l) = absurd (omega arith)
    rest (inr k) l = k
release-Allocated p ptr a ((false, len) ∷ bs) (inl o) h out = cc
release-Allocated p ptr a ((used, len) ∷ bs) (inr o) (inl h) out =
    let miss : (used && (ptr == p + header_size)) ≡ false =
      ground (arith, Owns-le (p + len + header_size) ptr bs o) in
    rw miss (inl h)
release-Allocated p ptr a ((used, len) ∷ bs) (inr o) (inr h) out =
    let miss : (used && (ptr == p + header_size)) ≡ false =
      ground (arith, Owns-le (p + len + header_size) ptr bs o) in
    rw miss (inr (release-Allocated (p + len + header_size) ptr a bs o h (rw miss at out)))

-- First fit leaves the blocks that are owned where they are, with their lengths.
pub placed-keeps_owned :
    (n p ptr : ℕ) (bs : List Block)
    → Owns p ptr bs
    → Owns p ptr (placed n bs) × (data_len p ptr (placed n bs) ≡ data_len p ptr bs)
unfolding placed data_len carve
placed-keeps_owned n p ptr [] o = absurd o
placed-keeps_owned n p ptr ((true, len) ∷ bs) (inl o) =
    let hit : (ptr == p + header_size) ≡ true = ground arith in (inl o, rw hit refl)
placed-keeps_owned n p ptr ((true, len) ∷ bs) (inr o) =
    let miss : (ptr == p + header_size) ≡ false =
      ground (arith, Owns-le (p + len + header_size) ptr bs o) in
    let ih = placed-keeps_owned n (p + len + header_size) ptr bs o in (inr ih.0, rw miss ih.1)
placed-keeps_owned n p ptr ((false, len) ∷ bs) (inl o) = cc
placed-keeps_owned n p ptr ((false, len) ∷ bs) (inr o) =
    let above = Owns-le (p + len + header_size) ptr bs o in
    let ih = placed-keeps_owned n (p + len + header_size) ptr bs o in
    elim (Bool-cases (leb n len)) [
      | inr small ↦ rw small (inr ih.0, ih.1)
      | inl fit ↦ elim (Bool-cases (ltb (header_size + 3) (len - n))) [
        | inl room ↦
            let fits : n ≤ len = ground arith in
            let here : p + n + header_size + (len - n - header_size) + header_size
                ≡ p + len + header_size =
              ground arith in
            let miss : (ptr == p + header_size) ≡ false = ground (arith, above) in
            rw (fit, room, miss, here) (inr (inr o), refl)
        | inr tight ↦
            let miss : (ptr == p + header_size) ≡ false = ground (arith, above) in
            rw (fit, tight, miss) (inr o, refl)
      ]
    ]

regroup :
    (p len off old n ptr : ℕ)
    → (p + len + header_size + off + n ≤ ptr)
      ⊎ (ptr + old + header_size ≤ p + len + header_size + off)
    → (p + (len + header_size + off) + n ≤ ptr)
      ⊎ (ptr + old + header_size ≤ p + (len + header_size + off))
regroup p len off old n ptr (inl h) = inl (omega arith)
regroup p len off old n ptr (inr h) = inr (omega arith)

-- The bytes that first fit gives out and an owned block lie apart, with a header between them.
pub placed-apart :
    (n p ptr : ℕ) (bs : List Block)
    → Owns p ptr bs
    → has_room n bs ≡ true
    → (p + fit_offset n bs + n ≤ ptr)
      ⊎ (ptr + data_len p ptr bs + header_size ≤ p + fit_offset n bs)
unfolding has_room fit_offset data_len
placed-apart n p ptr [] o r = absurd o
placed-apart n p ptr ((true, len) ∷ bs) (inl o) r =
    let hit : (ptr == p + header_size) ≡ true = ground arith in
    rw hit (inr (omega (arith, fit_offset-pos n bs r)))
placed-apart n p ptr ((true, len) ∷ bs) (inr o) r =
    let miss : (ptr == p + header_size) ≡ false =
      ground (arith, Owns-le (p + len + header_size) ptr bs o) in
    rw miss (
      regroup p len (fit_offset n bs) (data_len (p + len + header_size) ptr bs) n ptr
        (placed-apart n (p + len + header_size) ptr bs o r))
placed-apart n p ptr ((false, len) ∷ bs) (inl o) r = cc
placed-apart n p ptr ((false, len) ∷ bs) (inr o) r = elim (Bool-cases (leb n len)) [
  | inl fit ↦
      let fits : n ≤ len = ground arith in
      rw fit (inl (omega (arith, Owns-le (p + len + header_size) ptr bs o)))
  | inr small ↦ rw small (
      regroup p len (fit_offset n bs) (data_len (p + len + header_size) ptr bs) n ptr
        (placed-apart n (p + len + header_size) ptr bs o (rw small at r)))
]

-- Where nothing fits, first fit changes nothing.
pub placed-full : (n : ℕ) (bs : List Block) → has_room n bs ≡ false → placed n bs ≡ bs
unfolding has_room placed
placed-full n [] r = refl
placed-full n ((used, len) ∷ bs) r = elim (Bool-cases (not used && leb n len)) [
  | inl fit ↦ absurd (let f : true ≡ false = rw fit at r in cc)
  | inr skip ↦ rw skip (ap (λ r. (used, len) ∷ r) (placed-full n bs (rw skip at r)))
]
