-- ===== src/Memory/Heap/Free.antt =====
-- heap_free marks a block as free and merges the free blocks behind it into it.
use m68k_system.Common.{
  ℕ, zero, suc, ◌+◌, ◌%◌, ◌^◌, ◌≤◌, ◌<◌, ◌≡◌, ◌≢◌, refl, inl, inr, true, false, not, ◌&&◌, some,
  List, [], ◌∷◌, arith, ap, ◌∙◌, ltb, Store, ◌==◌, write, length,
}
use mathlib.Core.Path.{ap₂}
use m68k_system.Memory.Heap.{
  HeapCtx, header_size, header_of, magic, size, in_use, next, merge_loop, heap_free,
  memblock_hdr_magic, used_magic,
}
use m68k_system.Memory.Heap.Chain.{
  Block, Chain, Chain-agree, Chain-lt, Allocated, Allocated-le, Owns, Owns-le, absorbed, after_free,
  release,
}

module _ (heap : HeapCtx) (limit : ℕ) (bounds : limit ≡ heap.start + heap.size)
    (small : limit < 2 ^ 32) (p : ℕ) where
  -- One round of the walk.
  merge_step :
      (fuel len k : ℕ) (bs : List Block) (m : Store)
      → Chain m p ((false, len) ∷ (false, k) ∷ bs) limit
      → merge_loop (suc fuel) heap p (p + len + header_size) m
        ≡ merge_loop fuel heap p
            (p + (len + k + header_size) + header_size)
            (write m (p + 4) (len + k + header_size))
  unfolding merge_loop
  merge_step fuel len k bs m c =
      let q = p + len + header_size in
      let above = Chain-lt m (q + k + header_size) limit bs c.3.3 in
      let go_on : (ltb q (heap.start + heap.size) && not (in_use m q)) ≡ true =
        ground (arith, above) in
      let ahead : next m q ≡ p + (len + k + header_size) + header_size = omega arith in
      let grown : (size m p + (size m q + header_size)) % 2 ^ 32 ≡ len + k + header_size =
        omega (arith, above) in
      rw go_on (ap₂ (λ a v. merge_loop fuel heap p a (write m (p + 4) v)) ahead grown)

  -- The merging walk comes to an end, writes the size of the block alone, and leaves it with the
  -- free blocks behind it absorbed.
  merge_loop-Chain :
      (fuel len : ℕ) (bs : List Block) (m : Store)
      → Chain m p ((false, len) ∷ bs) limit
      → length bs < fuel
      → (m' : Store) × (merge_loop fuel heap p (p + len + header_size) m ≡ some m')
        × Chain m' p ((false, absorbed len bs) ∷ after_free bs) limit
        × ((a : ℕ) → a ≢ p + 4 → m' a ≡ m a)
  unfolding merge_loop absorbed after_free
  merge_loop-Chain zero len bs m c f = absurd (omega arith)
  merge_loop-Chain (suc fuel) len [] m c f = (m, ground arith, c, λ a h. refl)
  merge_loop-Chain (suc fuel) len ((true, k) ∷ bs) m c f = (m, ground arith, c, λ a h. refl)
  merge_loop-Chain (suc fuel) len ((false, k) ∷ bs) m c f =
      let m1 = write m (p + 4) (len + k + header_size) in
      let here : p + len + header_size + k + header_size
          ≡ p + (len + k + header_size) + header_size =
        omega arith in
      let later : Chain m1 (p + (len + k + header_size) + header_size) bs limit =
        Chain-agree m m1 (p + (len + k + header_size) + header_size) limit bs (λ a h. ground arith)
          (rw here at c.3.3) in
      let (m', e, c', same) =
        merge_loop-Chain fuel (len + k + header_size) bs m1
          (ground arith, ground arith, omega arith, later) (omega arith) in
      (m', merge_step fuel len k bs m c ∙ e, c', λ a h. ground (arith, same a))

  free_step :
      (fuel len : ℕ) (m : Store)
      → p + header_size ≤ limit
      → magic m p ≡ used_magic
      → size m p ≡ len
      → heap_free fuel heap (p + header_size) m
        ≡ merge_loop fuel heap p (p + len + header_size) (write m p memblock_hdr_magic)
  unfolding heap_free
  free_step fuel len m inside used is_len =
      let back : header_of (p + header_size) ≡ p = omega arith in
      let nonnull : (p + header_size == 0) ≡ false = ground arith in
      let hit : (magic m p == used_magic) ≡ true = ground arith in
      let ahead : p + header_size + size m p ≡ p + len + header_size = omega arith in
      rw (nonnull, back, hit)
        (ap (λ q. merge_loop fuel heap p q (write m p memblock_hdr_magic)) ahead)

  -- Freeing the block at `p`.
  free-Chain :
      (fuel len : ℕ) (bs : List Block) (m : Store)
      → Chain m p ((true, len) ∷ bs) limit
      → length bs < fuel
      → (m' : Store) × (heap_free fuel heap (p + header_size) m ≡ some m')
        × Chain m' p ((false, absorbed len bs) ∷ after_free bs) limit
        × ((a : ℕ) → a ≢ p → a ≢ p + 4 → m' a ≡ m a)
  free-Chain fuel len bs m c f =
      let m1 = write m p memblock_hdr_magic in
      let marked = Chain-agree m m1 (p + len + header_size) limit bs (λ a h. ground arith) c.3 in
      let (m', e, c', same) =
        merge_loop-Chain fuel len bs m1 (ground arith, ground arith, c.2, marked) f in
      (
        m',
        free_step fuel len m (Chain-lt m p limit ((true, len) ∷ bs) c) c.0 c.1 ∙ e,
        c',
        λ a h k. ground (arith, same a),
      )

-- What heap_free does with the pointer of a used block: the blocks from `s` on are those of
-- `release`, nothing below `s` is written, nor any data of a block that is still used.
pub record Frees (s ptr limit : ℕ) (bs : List Block) (m m' : Store) : Type 0 where
  pub chain : Chain m' s (release s ptr bs) limit
  pub below : (a : ℕ) → a < s → m' a ≡ m a
  pub spared : (a : ℕ) → Allocated s (release s ptr bs) a → m' a ≡ m a

module _ (heap : HeapCtx) (limit : ℕ) (bounds : limit ≡ heap.start + heap.size)
    (small : limit < 2 ^ 32) where
  Frees-here :
      (fuel s len : ℕ) (bs : List Block) (m : Store)
      → Chain m s ((true, len) ∷ bs) limit
      → length bs < fuel
      → (m' : Store) × (heap_free fuel heap (s + header_size) m ≡ some m')
        × Frees s (s + header_size) limit ((true, len) ∷ bs) m m'
  unfolding release
  Frees-here fuel s len bs m c f =
      let (m', e, c', same) = free-Chain heap limit bounds small s fuel len bs m c f in
      let hit : (s + header_size == s + header_size) ≡ true = ground arith in
      (
        m',
        e,
        record {
          chain = rw hit c';
          below = λ a h. same a (omega arith) (omega arith);
          spared = rw hit (λ a h. spared m' same a h);
        },
      )
    where
      spared :
          (m' : Store)
          → ((a : ℕ) → a ≢ s → a ≢ s + 4 → m' a ≡ m a)
          → (a : ℕ) → Allocated s ((false, absorbed len bs) ∷ after_free bs) a
          → m' a ≡ m a
      spared m' same a (inl h) = cc
      spared m' same a (inr h) =
          let above = Allocated-le (s + absorbed len bs + header_size) a (after_free bs) h in
          same a (omega (arith, above)) (omega (arith, above))

  pub heap_free-Frees :
      (fuel s ptr : ℕ) (bs : List Block) (m : Store)
      → Chain m s bs limit
      → Owns s ptr bs
      → length bs < fuel
      → (m' : Store) × (heap_free fuel heap ptr m ≡ some m') × Frees s ptr limit bs m m'
  unfolding release
  heap_free-Frees fuel s ptr [] m c o f = absurd o
  heap_free-Frees fuel s ptr ((true, len) ∷ bs) m c (inl o) f =
      rw (o.1) (Frees-here fuel s len bs m c (omega arith))
  heap_free-Frees fuel s ptr ((false, len) ∷ bs) m c (inl o) f = cc
  heap_free-Frees fuel s ptr ((used, len) ∷ bs) m c (inr o) f =
      let (m', e, fr) = heap_free-Frees fuel (s + len + header_size) ptr bs m c.3 o (omega arith) in
      let miss : (used && (ptr == s + header_size)) ≡ false =
        ground (arith, Owns-le (s + len + header_size) ptr bs o) in
      (
        m',
        e,
        record {
          chain =
              rw miss (ground (arith, fr.below s), ground (arith, fr.below (s + 4)), c.2, fr.chain);
          below = λ a h. fr.below a (omega arith);
          spared = rw miss (λ a h. spared m' fr a h);
        },
      )
    where
      spared :
          (m' : Store)
          → Frees (s + len + header_size) ptr limit bs m m'
          → (a : ℕ) → Allocated s ((used, len) ∷ release (s + len + header_size) ptr bs) a
          → m' a ≡ m a
      spared m' fr a (inl h) = fr.below a (omega arith)
      spared m' fr a (inr h) = fr.spared a h
