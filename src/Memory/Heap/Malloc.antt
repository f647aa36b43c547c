-- ===== src/Memory/Heap/Malloc.antt =====
-- heap_malloc is first fit on the list of blocks.
use m68k_system.Common.{
  ℕ, zero, suc, ◌+◌, ◌-◌, ◌≤◌, ◌<◌, ◌≡◌, refl, ◌⊎◌, inl, inr, Bool, true, false, not, ◌&&◌, some,
  List, [], ◌∷◌, ◌++◌, arith, Store, ltb, leb, if◌then◌else◌, Bool-cases, length,
}
use m68k_system.Memory.Heap.{header_size, magic, size, claim, malloc_loop, memblock_hdr_magic}
use m68k_system.Memory.Heap.Chain.{
  Block, Chain, Chain-agree, Allocated, Allocated-le, carve, has_room, fit_offset, placed,
}

module _ (m : Store) (p n len : ℕ) (is_size : size m p ≡ len) (fits : n ≤ len) where
  -- A claim writes inside the block alone.
  claim-agree : (a : ℕ) → (a < p) ⊎ (p + len + header_size ≤ a) → claim n p m a ≡ m a
  unfolding claim
  claim-agree a (inl h) = ground arith
  claim-agree a (inr h) = ground arith

  claim-Chain :
      (limit : ℕ) (bs : List Block)
      → magic m p ≡ memblock_hdr_magic
      → 0 < n
      → Chain m (p + len + header_size) bs limit
      → Chain (claim n p m) p (carve n len ++ bs) limit
  unfolding claim carve
  claim-Chain limit bs is_free pos c = elim (Bool-cases (ltb (header_size + 3) (len - n))) [
    | inl room ↦
        let here : p + n + header_size + (len - n - header_size) + header_size
            ≡ p + len + header_size =
          ground arith in
        rw room (
          ground arith,
          ground arith,
          pos,
          (ground arith, ground arith, ground arith, rw here (later c)),
        )
    | inr tight ↦ rw tight (ground arith, ground arith, ground arith, later c)
  ]
    where
      later :
          Chain m (p + len + header_size) bs limit
          → Chain (claim n p m) (p + len + header_size) bs limit
      later =
          Chain-agree m (claim n p m) (p + len + header_size) limit bs
            (λ a h. claim-agree a (inr h))

-- What a walk from `p` does: it finds the first fit or nothing, leaves a chain of the blocks that
-- first fit leaves, and writes neither below `p` nor into the data of a used block.
pub record Fits (n p limit : ℕ) (bs : List Block) (m m' : Store) (ptr : ℕ) : Type 0 where
  pub found : ptr ≡ (if has_room n bs then p + fit_offset n bs else 0)
  pub chain : Chain m' p (placed n bs) limit
  pub below : (a : ℕ) → a < p → m' a ≡ m a
  pub spared : (a : ℕ) → Allocated p bs a → m' a ≡ m a

shift_found :
    (p len off ptr : ℕ) (found : Bool)
    → ptr ≡ (if found then p + len + header_size + off else 0)
    → ptr ≡ (if found then p + (len + header_size + off) else 0)
shift_found p len off ptr found h = ground arith

-- A block that does not fit is passed over.
Fits-skip :
    (n p limit len ptr : ℕ) (used : Bool) (bs : List Block) (m m' : Store)
    → (not used && leb n len) ≡ false
    → Chain m p ((used, len) ∷ bs) limit
    → Fits n (p + len + header_size) limit bs m m' ptr
    → Fits n p limit ((used, len) ∷ bs) m m' ptr
unfolding has_room fit_offset placed
Fits-skip n p limit len ptr used bs m m' no_fit c f = record {
  found = rw no_fit (shift_found p len (fit_offset n bs) ptr (has_room n bs) f.found);
  chain = rw no_fit (ground (arith, f.below p), ground (arith, f.below (p + 4)), c.2, f.chain);
  below = λ a h. f.below a (omega arith);
  spared = spared;
}
  where
    spared : (a : ℕ) → Allocated p ((used, len) ∷ bs) a → m' a ≡ m a
    spared a (inl h) = f.below a (omega arith)
    spared a (inr h) = f.spared a h

Fits-claim :
    (n p limit len : ℕ) (bs : List Block) (m : Store)
    → leb n len ≡ true
    → 0 < n
    → Chain m p ((false, len) ∷ bs) limit
    → Fits n p limit ((false, len) ∷ bs) m (claim n p m) (p + header_size)
unfolding has_room fit_offset placed
Fits-claim n p limit len bs m fit pos c = record {
  found = rw fit refl;
  chain = rw fit (claim-Chain m p n len c.1 (ground arith) limit bs c.0 pos c.3);
  below = λ a h. claim-agree m p n len c.1 (ground arith) a (inl h);
  spared = spared;
}
  where
    spared : (a : ℕ) → Allocated p ((false, len) ∷ bs) a → claim n p m a ≡ m a
    spared a (inl h) = absurd (cc)
    spared a (inr h) =
        claim-agree m p n len c.1 (ground arith) a
          (inr (omega (arith, Allocated-le (p + len + header_size) a bs h)))

-- The walk comes to an end if it has fuel for each block, and does first fit.
pub malloc_loop-Fits :
    (fuel n p limit : ℕ) (bs : List Block) (m : Store)
    → Chain m p bs limit
    → 0 < n
    → length bs < fuel
    → (ptr : ℕ) × (m' : Store) × (malloc_loop fuel n p m ≡ some (ptr, m'))
      × Fits n p limit bs m m' ptr
unfolding malloc_loop has_room fit_offset placed
malloc_loop-Fits zero n p limit bs m c pos f = absurd (omega arith)
malloc_loop-Fits (suc fuel) n p limit [] m c pos f = (
  0,
  m,
  ground arith,
  record { found = refl; chain = c; below = λ a h. refl; spared = λ a h. refl },
)
malloc_loop-Fits (suc fuel) n p limit ((true, len) ∷ bs) m c pos f =
    let (ptr, m', e, fits) =
      malloc_loop-Fits fuel n (p + len + header_size) limit bs m c.3 pos (omega arith) in
    (ptr, m', ground arith, Fits-skip n p limit len ptr true bs m m' refl c fits)
malloc_loop-Fits (suc fuel) n p limit ((false, len) ∷ bs) m c pos f =
    elim (Bool-cases (leb n len)) [
      | inl fit ↦
          (p + header_size, claim n p m, ground arith, Fits-claim n p limit len bs m fit pos c)
      | inr small ↦
          let (ptr, m', e, fits) =
            malloc_loop-Fits fuel n (p + len + header_size) limit bs m c.3 pos (omega arith) in
          (ptr, m', ground arith, Fits-skip n p limit len ptr false bs m m' small c fits)
    ]
