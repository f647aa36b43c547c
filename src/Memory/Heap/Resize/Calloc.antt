-- ===== src/Memory/Heap/Resize/Calloc.antt =====
-- heap_calloc gives out cleared memory.
use m68k_system.Common.{
  ℕ, ◌+◌, ◌*◌, ◌%◌, ◌^◌, ◌≤◌, ◌<◌, ◌≡◌, ◌∙◌, ◌⊎◌, inl, inr, refl, true, false, Bool-cases, ltb,
  ◌==◌, some, arith, List, length, Store, if◌then◌else◌,
}
use m68k_system.Memory.Heap.{HeapCtx, align}
use m68k_system.Memory.Heap.Chain.{Block, IsHeap, Allocated, has_room, fit_offset, placed}
use m68k_system.Memory.Heap.Malloc.{Fits}
use m68k_system.Memory.Heap.Spec.{heap_malloc-Fits}
use m68k_system.Memory.Heap.Fresh.{fit_offset-pos, placed-Allocated, placed-unused}
use m68k_system.Memory.Heap.Resize.{words, zero_words, heap_calloc}
use m68k_system.Memory.Heap.Resize.Words.{zero_words-outside, zero_words-zero}
use m68k_system.Memory.Heap.Resize.Blocks.{Chain-data}

pub range-cases : (a lo hi : ℕ) → ((lo ≤ a) × (a < hi)) ⊎ ((a < lo) ⊎ (hi ≤ a))
range-cases a lo hi = elim (Bool-cases (ltb a lo)) [
  | inl below ↦ inr (inl (ground arith))
  | inr above ↦ elim (Bool-cases (ltb a hi)) [
    | inl inside ↦ inl (ground arith, ground arith)
    | inr beyond ↦ inr (inr (ground arith))
  ]
]

-- A write to the data of used blocks alone leaves the heap's blocks as they are.
pub IsHeap-data :
    (heap : HeapCtx) (m m' : Store) (bs : List Block) (lo hi : ℕ)
    → IsHeap heap m bs
    → ((a : ℕ) → lo ≤ a → a < hi → Allocated heap.start bs a)
    → ((a : ℕ) → (a < lo) ⊎ (hi ≤ a) → m' a ≡ m a)
    → IsHeap heap m' bs
IsHeap-data heap m m' bs lo hi is used same = record {
  chain =
      Chain-data m m' heap.start (heap.start + heap.size) bs is.chain
        λ a h free. step a free (range-cases a lo hi);
  small = is.small;
}
  where
    step :
        (a : ℕ)
        → ¬ Allocated heap.start bs a
        → ((lo ≤ a) × (a < hi)) ⊎ ((a < lo) ⊎ (hi ≤ a))
        → m' a ≡ m a
    step a free (inl h) = absurd (free (used a h.0 h.1))
    step a free (inr h) = same a h

-- What heap_calloc does for `n` bytes: the blocks are those of first fit, the words of the new
-- block are zero, and no data of a used block changes.
pub record Clears (heap : HeapCtx) (n : ℕ) (bs : List Block) (m : Store) (ptr : ℕ) (m' : Store)
    : Type 0 where
  pub found : ptr ≡ (if has_room (align n) bs then heap.start + fit_offset (align n) bs else 0)
  pub heaped : IsHeap heap m' (placed (align n) bs)
  pub zeroed : has_room (align n) bs ≡ true → (i : ℕ) → i < words n → m' (ptr + 4 * i) ≡ 0
  pub spared : (a : ℕ) → Allocated heap.start bs a → m' a ≡ m a

module _ (heap : HeapCtx) (m : Store) (bs : List Block) (is : IsHeap heap m bs) (n : ℕ)
    (small : n + 3 < 2 ^ 32) where
  Clears-room :
      (m' : Store) (ptr : ℕ)
      → Fits (align n) heap.start (heap.start + heap.size) bs m m' ptr
      → has_room (align n) bs ≡ true
      → Clears heap n bs m ptr (zero_words (words n) ptr m')
  unfolding align
  Clears-room m' ptr f room =
      let at : ptr ≡ heap.start + fit_offset (align n) bs = rw room at f.found in
      let fill : 4 * words n ≡ align n = omega arith in
      let new = λ (a : ℕ) (lo : ptr ≤ a) (hi : a < ptr + 4 * words n).
        placed-Allocated (align n) heap.start bs a room (omega arith) (omega arith) in
      record {
        found = f.found;
        heaped =
            IsHeap-data heap m' (zero_words (words n) ptr m') (placed (align n) bs) ptr
              (ptr + 4 * words n) (record { chain = f.chain; small = is.small }) new
              (λ a h. zero_words-outside (words n) ptr a m' h);
        zeroed = λ r i h. zero_words-zero (words n) ptr i m' h;
        spared = λ a h.
            zero_words-outside (words n) ptr a m'
              (out a h at fill (range-cases a ptr (ptr + 4 * words n)))
            ∙ f.spared a h;
      }
    where
      out :
          (a : ℕ)
          → Allocated heap.start bs a
          → ptr ≡ heap.start + fit_offset (align n) bs
          → 4 * words n ≡ align n
          → ((ptr ≤ a) × (a < ptr + 4 * words n)) ⊎ ((a < ptr) ⊎ (ptr + 4 * words n ≤ a))
          → (a < ptr) ⊎ (ptr + 4 * words n ≤ a)
      out a h at fill (inl k) =
          absurd (placed-unused (align n) heap.start bs a room (omega arith) (omega arith) h)
      out a h at fill (inr k) = k

  Clears-cases :
      (m' : Store) (ptr : ℕ)
      → Fits (align n) heap.start (heap.start + heap.size) bs m m' ptr
      → Clears heap n bs m ptr (if ptr == 0 then m' else zero_words (words n) ptr m')
  Clears-cases m' ptr f = elim (Bool-cases (has_room (align n) bs)) [
    | inl room ↦
        let at : ptr ≡ heap.start + fit_offset (align n) bs = rw room at f.found in
        let nonnull : (ptr == 0) ≡ false = ground (arith, fit_offset-pos (align n) bs room) in
        rw nonnull (Clears-room m' ptr f room)
    | inr full ↦
        let null : ptr ≡ 0 = rw full at f.found in
        let hit : (ptr == 0) ≡ true = ground arith in
        rw hit (record {
          found = f.found;
          heaped = record { chain = f.chain; small = is.small };
          zeroed = λ r. cc;
          spared = f.spared;
        })
  ]

module _ (heap : HeapCtx) (m : Store) (bs : List Block) (is : IsHeap heap m bs) where
  -- On a heap of blocks, with fuel for each block, heap_calloc for a product that is not zero and
  -- does not wrap comes to an end. It gives an address where a free block has room for the aligned
  -- product, else 0; there the product's whole words are zero, and no data of a used block changes.
  pub heap_calloc-Clears :
      (fuel nmemb size : ℕ)
      → 0 < nmemb * size
      → nmemb * size + 3 < 2 ^ 32
      → length bs < fuel
      → (ptr : ℕ) × (m' : Store) × (heap_calloc fuel heap nmemb size m ≡ some (ptr, m'))
        × Clears heap (nmemb * size) bs m ptr m'
  unfolding heap_calloc
  heap_calloc-Clears fuel nmemb size pos small f =
      let (ptr, m', e, fits) = heap_malloc-Fits heap m bs is fuel (nmemb * size) pos small f in
      let whole : nmemb * size % 2 ^ 32 ≡ nmemb * size = omega arith in
      (
        ptr,
        (if ptr == 0 then m' else zero_words (words (nmemb * size)) ptr m'),
        rw (whole, e) refl,
        Clears-cases heap m bs is (nmemb * size) small m' ptr fits,
      )
