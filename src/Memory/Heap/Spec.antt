-- ===== src/Memory/Heap/Spec.antt =====
-- What the functions of heap.c promise on a heap of blocks.
use m68k_system.Common.{
  ℕ, ◌+◌, ◌-◌, ◌*◌, ◌%◌, ◌^◌, ◌≤◌, ◌<◌, ◌≡◌, ◌∙◌, refl, ap, true, false, some, List, [], ◌∷◌, arith,
  Store, length, ◌==◌,
}
use m68k_system.Memory.Heap.{
  HeapCtx, align, round_even, heap_init, heap_malloc, heap_free, heap_freemem, heap_usedmem,
}
use m68k_system.Memory.Heap.Chain.{Block, IsHeap, Chain-bytes, free_bytes, used_bytes, Owns}
use m68k_system.Memory.Heap.Malloc.{Fits, malloc_loop-Fits}
use m68k_system.Memory.Heap.Free.{Frees, heap_free-Frees}
use m68k_system.Memory.Heap.Count.{count_loop-bytes}

-- A request that does not wrap is rounded up to the next multiple of four.
pub align_bounds : (n : ℕ) → n + 3 < 2 ^ 32 → (n ≤ align n) × (align n < n + 4) × (align n % 4 ≡ 0)
unfolding align
align_bounds n h = omega arith

-- Given memory of at least 18 bytes, heap_init makes a heap of one free block: all of the memory, rounded down to an even length, less two headers.
pub heap_init-IsHeap :
    (mem len : ℕ) (m : Store)
    → 18 ≤ len
    → mem + len < 2 ^ 32
    → IsHeap (heap_init mem len m).0 (heap_init mem len m).1 ((false, round_even len - 16) ∷ [])
unfolding heap_init
heap_init-IsHeap mem len m h small =
    let e : (round_even len + 2 ^ 32 - 16) % 2 ^ 32 ≡ round_even len - 16 = omega arith in
    rw e (record {
      chain = (ground arith, ground arith, omega arith, (ground arith, ground arith, omega arith));
      small = omega arith;
    })

module _ (heap : HeapCtx) (m : Store) (bs : List Block) (is : IsHeap heap m bs) where
  pub heap_malloc-Fits :
      (fuel n : ℕ)
      → 0 < n
      → n + 3 < 2 ^ 32
      → length bs < fuel
      → (ptr : ℕ) × (m' : Store) × (heap_malloc fuel heap n m ≡ some (ptr, m'))
        × Fits (align n) heap.start (heap.start + heap.size) bs m m' ptr
  unfolding heap_malloc
  heap_malloc-Fits fuel n pos h f =
      let (ptr, m', e, fits) =
        malloc_loop-Fits fuel (align n) heap.start (heap.start + heap.size) bs m is.chain
          (omega (arith, align_bounds n h)) f in
      let nonzero : (n == 0) ≡ false = ground arith in (ptr, m', rw nonzero e, fits)

  -- On a heap of blocks, with fuel for each block: heap_free of the address where the data of a used block
  -- begins comes to an end. It makes that block free, joined with the free blocks behind it up to the next
  -- used one, leaves the other blocks, and changes no data of a block that is still used.
  pub heap_free-release :
      (fuel ptr : ℕ)
      → Owns heap.start ptr bs
      → length bs < fuel
      → (m' : Store) × (heap_free fuel heap ptr m ≡ some m')
        × Frees heap.start ptr (heap.start + heap.size) bs m m'
  heap_free-release fuel ptr o f =
      heap_free-Frees heap (heap.start + heap.size) refl is.small fuel heap.start ptr bs m is.chain
        o f

  -- On a heap of blocks, with fuel for two rounds more than there are blocks: heap_freemem and heap_usedmem
  -- come to an end with the bytes of the free blocks and of the used ones, and these, with eight bytes for
  -- the header of each block and for the end marker, add up to the size of the heap.
  pub heap_freemem-add-heap_usedmem :
      (fuel : ℕ)
      → length bs + 1 < fuel
      → (free : ℕ) × (used : ℕ) × (heap_freemem fuel heap m ≡ some free)
        × (heap_usedmem fuel heap m ≡ some used)
        × (free ≡ free_bytes bs)
        × (used ≡ used_bytes bs)
        × (free + used + 8 * (length bs + 1) ≡ heap.size)
  unfolding heap_freemem heap_usedmem
  heap_freemem-add-heap_usedmem fuel f =
      let total = Chain-bytes m heap.start (heap.start + heap.size) bs is.chain in
      let small = is.small in
      (
        free_bytes bs,
        used_bytes bs,
        count_loop-bytes heap (heap.start + heap.size) refl false fuel heap.start 0 bs m is.chain
              (omega (arith, total, small)) f
            ∙ ap some (omega arith),
        count_loop-bytes heap (heap.start + heap.size) refl true fuel heap.start 0 bs m is.chain
              (omega (arith, total, small)) f
            ∙ ap some (omega arith),
        refl,
        refl,
        omega (arith, total),
      )
