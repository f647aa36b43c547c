-- ===== src/Memory/Heap/Wrap.antt =====
-- The rounding of heap_malloc wraps for the three largest sizes.
use m68k_system.Common.{
  ℕ, suc, ◌+◌, ◌-◌, ◌≤◌, ◌<◌, ◌≡◌, true, false, not, ◌&&◌, leb, some, arith, List, ◌∷◌, Store, ◌==◌,
  ◌^◌,
}
use m68k_system.Memory.Heap.{
  HeapCtx, align, claim, malloc_loop, heap_malloc, size, in_use, header_size,
}
use m68k_system.Memory.Heap.Chain.{Block, IsHeap}

align-wraps : (n : ℕ) → 2 ^ 32 - 3 ≤ n → n < 2 ^ 32 → align n ≡ 0
unfolding align
align-wraps n lo hi = omega arith

empty_stops :
    (rounds n p : ℕ) (m : Store) → size m p ≡ 0 → malloc_loop (suc rounds) n p m ≡ some (0, m)
unfolding malloc_loop
empty_stops rounds n p m e = rw e

module _ (heap : HeapCtx) (m : Store) (len : ℕ) (bs : List Block)
    (is : IsHeap heap m ((false, len) ∷ bs)) where
  first_fits :
      (fuel : ℕ)
      → malloc_loop (suc fuel) 0 heap.start m
        ≡ some (heap.start + header_size, claim 0 heap.start m)
  unfolding malloc_loop
  first_fits fuel =
      let c = is.chain in
      let sized : (size m heap.start == 0) ≡ false = ground (arith, c) in
      let fits : (not (in_use m heap.start) && leb 0 (size m heap.start)) ≡ true =
        ground (arith, c) in
      rw (sized, fits)

  claim-empty : 12 ≤ len → size (claim 0 heap.start m) heap.start ≡ 0
  unfolding claim
  claim-empty room = let c = is.chain in ground (arith, c)

  -- If the first block is free and has at least 12 bytes, heap_malloc of one of the three largest
  -- 32-bit sizes gives the address of that block with no byte in it, and from then on heap_malloc of
  -- whatever size, given one round, gives 0.
  pub heap_malloc-wraps :
      (fuel n : ℕ)
      → 12 ≤ len
      → 2 ^ 32 - 3 ≤ n
      → n < 2 ^ 32
      → (m' : Store) × (heap_malloc (suc fuel) heap n m ≡ some (heap.start + header_size, m'))
        × (size m' heap.start ≡ 0)
        × ((k rounds : ℕ) → heap_malloc (suc rounds) heap k m' ≡ some (0, m'))
  unfolding heap_malloc
  heap_malloc-wraps fuel n room lo hi =
      let nonzero : (n == 0) ≡ false = ground arith in
      (
        claim 0 heap.start m,
        rw (nonzero, align-wraps n lo hi) (first_fits fuel),
        claim-empty room,
        λ k rounds. ground (
          arith,
          empty_stops rounds (align k) heap.start (claim 0 heap.start m) (claim-empty room),
        ),
      )
