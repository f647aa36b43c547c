-- ===== src/Memory/Heap/Resize/Realloc.antt =====
-- heap_realloc moves a block and its contents.
use m68k_system.Common.{
  ℕ, ◌+◌, ◌*◌, ◌^◌, ◌≤◌, ◌<◌, ◌≡◌, ◌∙◌, ◌⊎◌, inl, inr, refl, ap, true, false, Bool-cases, ltb, ◌==◌,
  some, arith, List, length, Store, if◌then◌else◌,
}
use m68k_system.Memory.Heap.{
  HeapCtx, align, header_of, header_size, magic, size, used_magic, heap_malloc, heap_free,
}
use m68k_system.Memory.Heap.Chain.{
  Block, IsHeap, Allocated, Owns, Owns-le, has_room, fit_offset, placed, release,
}
use m68k_system.Memory.Heap.Malloc.{Fits}
use m68k_system.Memory.Heap.Free.{Frees}
use m68k_system.Memory.Heap.Spec.{heap_malloc-Fits, heap_free-release}
use m68k_system.Memory.Heap.Fresh.{
  fit_offset-pos, placed-Allocated, placed-unused, placed-keeps, length-placed,
}
use m68k_system.Memory.Heap.Resize.{words, copy_words, move_block, heap_realloc}
use m68k_system.Memory.Heap.Resize.Words.{copy_words-outside, copy_words-copied}
use m68k_system.Memory.Heap.Resize.Calloc.{IsHeap-data, range-cases}
use m68k_system.Memory.Heap.Resize.Blocks.{
  Owns-header, Owns-Allocated, data_len, release-Allocated, placed-keeps_owned, placed-apart,
  placed-full,
}

-- The bytes that heap_realloc keeps.
abbrev pub kept : ℕ → ℕ → ℕ
kept old n = if ltb old n then old else n

-- What heap_realloc does with the block at `ptr` for `n` bytes, if there is room: the new block
-- has been given out and the old one freed, the words that are kept have been copied, and the data
-- of the other used blocks is unchanged.
pub record Moves (heap : HeapCtx) (n ptr : ℕ) (bs : List Block) (m : Store) (pnew : ℕ) (m' : Store)
    : Type 0 where
  pub found : pnew ≡ heap.start + fit_offset (align n) bs
  pub heaped : IsHeap heap m' (release heap.start ptr (placed (align n) bs))
  pub copied :
      (i : ℕ)
      → i < words (kept (data_len heap.start ptr bs) n)
      → m' (pnew + 4 * i) ≡ m (ptr + 4 * i)
  pub spared :
      (a : ℕ)
      → Allocated heap.start bs a
      → (a < ptr) ⊎ (ptr + data_len heap.start ptr bs ≤ a)
      → m' a ≡ m a

module _ (heap : HeapCtx) (m : Store) (bs : List Block) (is : IsHeap heap m bs) (n ptr : ℕ)
    (pos : 0 < n) (small : n + 3 < 2 ^ 32) (owns : Owns heap.start ptr bs) where
  -- The copy between heap_malloc and heap_free.
  module _ (pnew : ℕ) (m1 : Store)
      (f : Fits (align n) heap.start (heap.start + heap.size) bs m m1 pnew)
      (room : has_room (align n) bs ≡ true) where
    abbrev old : ℕ
    old = data_len heap.start ptr bs

    abbrev count : ℕ
    count = words (kept old n)

    at : pnew ≡ heap.start + fit_offset (align n) bs
    at = rw room at f.found

    within : (4 * count ≤ align n) × (4 * count < old + 4)
    unfolding align
    within = ground arith

    given : (a : ℕ) → pnew ≤ a → a < pnew + 4 * count → Allocated heap.start (placed (align n) bs) a
    given a lo hi =
        placed-Allocated (align n) heap.start bs a room (omega (arith, at))
          (omega (arith, at, within))

    copied_heap : IsHeap heap (copy_words count pnew ptr m1) (placed (align n) bs)
    copied_heap =
        IsHeap-data heap m1 (copy_words count pnew ptr m1) (placed (align n) bs) pnew
          (pnew + 4 * count) (record { chain = f.chain; small = is.small }) given
          (λ a h. copy_words-outside count pnew ptr a m1 h)

    apart : (pnew + align n ≤ ptr) ⊎ (ptr + old + header_size ≤ pnew)
    apart = rw at (placed-apart (align n) heap.start ptr bs owns room)

    Moves-freed :
        (m3 : Store)
        → Frees heap.start ptr
            (heap.start + heap.size)
            (placed (align n) bs)
            (copy_words count pnew ptr m1)
            m3
        → Moves heap n ptr bs m pnew m3
    Moves-freed m3 fr = record {
      found = at;
      heaped = record { chain = fr.chain; small = is.small };
      copied = λ i h.
          fr.spared (pnew + 4 * i) (
            stays (pnew + 4 * i) (given (pnew + 4 * i) (omega arith) (omega arith))
              (outside i h apart))
          ∙ copy_words-copied count pnew ptr i m1 (disjoint apart) h
          ∙ f.spared (ptr + 4 * i)
              (Owns-Allocated heap.start ptr (ptr + 4 * i) bs owns (omega arith) (source i h));
      spared = λ a used out.
          fr.spared a (stays a (placed-keeps (align n) heap.start bs a used) out)
          ∙ copy_words-outside count pnew ptr a m1
              (elsewhere a used (range-cases a pnew (pnew + 4 * count)))
          ∙ f.spared a used;
    }
      where
        stays :
            (a : ℕ)
            → Allocated heap.start (placed (align n) bs) a
            → (a < ptr) ⊎ (ptr + old ≤ a)
            → Allocated heap.start (release heap.start ptr (placed (align n) bs)) a
        stays a h out =
            let k = placed-keeps_owned (align n) heap.start ptr bs owns in
            release-Allocated heap.start ptr a (placed (align n) bs) k.0 h (rw (k.1) out)

        outside :
            (i : ℕ)
            → i < count
            → (pnew + align n ≤ ptr) ⊎ (ptr + old + header_size ≤ pnew)
            → (pnew + 4 * i < ptr) ⊎ (ptr + old ≤ pnew + 4 * i)
        outside i h (inl k) = inl (omega (arith, within))
        outside i h (inr k) = inr (omega arith)

        disjoint :
            (pnew + align n ≤ ptr) ⊎ (ptr + old + header_size ≤ pnew)
            → (pnew + 4 * count ≤ ptr) ⊎ (ptr + 4 * count ≤ pnew)
        disjoint (inl k) = inl (omega (arith, within))
        disjoint (inr k) = inr (omega (arith, within))

        source : (i : ℕ) → i < count → ptr + 4 * i < ptr + old
        source i h = ground arith

        elsewhere :
            (a : ℕ)
            → Allocated heap.start bs a
            → ((pnew ≤ a) × (a < pnew + 4 * count)) ⊎ ((a < pnew) ⊎ (pnew + 4 * count ≤ a))
            → (a < pnew) ⊎ (pnew + 4 * count ≤ a)
        elsewhere a used (inl k) = absurd (
            placed-unused (align n) heap.start bs a room (omega (arith, at))
              (omega (arith, at, within)) used)
        elsewhere a used (inr k) = k

  realloc_step : (fuel : ℕ) → heap_realloc fuel heap ptr n m ≡ move_block fuel heap ptr n m
  unfolding heap_realloc
  realloc_step fuel =
      let nonzero : (n == 0) ≡ false = ground arith in
      let nonnull : (ptr == 0) ≡ false = ground (arith, Owns-le heap.start ptr bs owns) in
      let marked : (magic m (header_of ptr) == used_magic) ≡ true =
        ground (
          arith,
          Owns-header m heap.start ptr (heap.start + heap.size) bs is.chain is.small owns,
        ) in
      rw (nonzero, nonnull, marked)

  -- What heap_realloc has done if there was room, or if not.
  abbrev pub Reallocates : ℕ → Store → Type 0
  Reallocates pnew m' =
      ((has_room (align n) bs ≡ true) × Moves heap n ptr bs m pnew m')
      ⊎ ((has_room (align n) bs ≡ false)
          × (pnew ≡ 0)
          × IsHeap heap m' bs
          × ((a : ℕ) → Allocated heap.start bs a → m' a ≡ m a))

  move_step :
      (fuel pnew k : ℕ) (m1 m3 : Store)
      → heap_malloc fuel heap n m ≡ some (pnew, m1)
      → size m1 (header_of ptr) ≡ k
      → (pnew == 0) ≡ false
      → heap_free fuel heap ptr (copy_words (words (kept k n)) pnew ptr m1) ≡ some m3
      → move_block fuel heap ptr n m ≡ some (pnew, m3)
  unfolding move_block
  move_step fuel pnew k m1 m3 e s nonnull e3 = rw (e, s, nonnull, e3)

  move_full :
      (fuel : ℕ) (m1 : Store)
      → heap_malloc fuel heap n m ≡ some (0, m1)
      → move_block fuel heap ptr n m ≡ some (0, m1)
  unfolding move_block
  move_full fuel m1 e = rw e

  move_room :
      (fuel pnew : ℕ) (m1 : Store)
      → length bs + 1 < fuel
      → heap_malloc fuel heap n m ≡ some (pnew, m1)
      → Fits (align n) heap.start (heap.start + heap.size) bs m m1 pnew
      → has_room (align n) bs ≡ true
      → (m' : Store) × (move_block fuel heap ptr n m ≡ some (pnew, m'))
        × Moves heap n ptr bs m pnew m'
  move_room fuel pnew m1 enough e f room =
      let k = placed-keeps_owned (align n) heap.start ptr bs owns in
      let (m3, e3, fr) =
        heap_free-release heap (copy_words (count pnew m1 f room) pnew ptr m1) (placed (align n) bs)
          (copied_heap pnew m1 f room) fuel ptr k.0 (omega (arith, length-placed (align n) bs)) in
      let header =
        Owns-header m1 heap.start ptr (heap.start + heap.size) (placed (align n) bs) f.chain
          is.small k.0 in
      let nonnull : (pnew == 0) ≡ false =
        ground (arith, at pnew m1 f room, fit_offset-pos (align n) bs room) in
      (
        m3,
        move_step fuel pnew (old pnew m1 f room) m1 m3 e (header.1 ∙ k.1) nonnull e3,
        Moves-freed pnew m1 f room m3 fr,
      )

  pub move_block-Reallocates :
      (fuel : ℕ)
      → length bs + 1 < fuel
      → (pnew : ℕ) × (m' : Store) × (move_block fuel heap ptr n m ≡ some (pnew, m'))
        × Reallocates pnew m'
  move_block-Reallocates fuel enough =
      let (pnew, m1, e, f) = heap_malloc-Fits heap m bs is fuel n pos small (omega arith) in
      elim (Bool-cases (has_room (align n) bs)) [
        | inl room ↦
            let (m3, e3, moves) = move_room fuel pnew m1 enough e f room in
            (pnew, m3, e3, inl (room, moves))
        | inr full ↦
            let null : pnew ≡ 0 = rw full at f.found in
            (
              0,
              m1,
              move_full fuel m1 (e ∙ ap (λ q. some (q, m1)) null),
              inr (
                full,
                refl,
                record { chain = rw (placed-full (align n) bs full) at f.chain; small = is.small },
                f.spared,
              ),
            )
      ]

  -- On a heap of blocks, with fuel for two blocks more, heap_realloc of a used block to a size that
  -- is not zero and does not wrap comes to an end. Without room it gives 0 and leaves all blocks and their
  -- data as they were; with room it
  -- gives out a new block, to which the whole words that fit into both sizes have been copied, frees the
  -- old one, and leaves the data of the other used blocks.
  pub heap_realloc-Reallocates :
      (fuel : ℕ)
      → length bs + 1 < fuel
      → (pnew : ℕ) × (m' : Store) × (heap_realloc fuel heap ptr n m ≡ some (pnew, m'))
        × Reallocates pnew m'
  heap_realloc-Reallocates fuel enough = rw realloc_step (move_block-Reallocates fuel enough)
