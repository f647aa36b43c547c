-- ===== src/Memory/Heap/Safety.antt =====
-- Memory safety of heap_malloc and heap_free, and their round trip.
use m68k_system.Common.{
  ℕ, ◌+◌, ◌≤◌, ◌<◌, ◌≡◌, ◌≢◌, true, Bool-cases, inl, inr, some, arith, List, length, Store,
  if◌then◌else◌, ◌^◌,
}
use m68k_system.Memory.Heap.{HeapCtx, align, heap_malloc, heap_free}
use m68k_system.Memory.Heap.Chain.{
  Block, IsHeap, Allocated, Owns, has_room, fit_offset, placed, release, IsMerged,
}
use m68k_system.Memory.Heap.Spec.{align_bounds, heap_malloc-Fits, heap_free-release}
use m68k_system.Memory.Heap.Fresh.{
  fit_offset-pos, placed-Allocated, placed-unused, placed-keeps, placed-Owns, release-placed,
  length-placed,
}

-- The bytes from `ptr` on are given out by a call that turns the blocks `before` into `after`: no
-- used block held one of them, one holds each now, and used bytes have stayed used.
pub record GivesOut (start ptr n : ℕ) (before after : List Block) : Type 0 where
  pub unused : (a : ℕ) → ptr ≤ a → a < ptr + n → ¬ Allocated start before a
  pub used : (a : ℕ) → ptr ≤ a → a < ptr + n → Allocated start after a
  pub keeps : (a : ℕ) → Allocated start before a → Allocated start after a

module _ (heap : HeapCtx) (m : Store) (bs : List Block) (is : IsHeap heap m bs) (fuel n : ℕ)
    (pos : 0 < n) (small : n + 3 < 2 ^ 32) where
  -- On a heap of blocks, with fuel for each block, heap_malloc for a size that is not zero and
  -- does not wrap comes to an end on a heap of blocks. Either it gives 0, where no free block is as
  -- large as the aligned size, or it gives out `n` bytes; in both cases no data of a used block changes.
  pub heap_malloc-GivesOut :
      length bs < fuel
      → (ptr : ℕ) × (m' : Store) × (after : List Block) × (heap_malloc fuel heap n m
          ≡ some (ptr, m'))
        × IsHeap heap m' after
        × ((a : ℕ) → Allocated heap.start bs a → m' a ≡ m a)
        × (if has_room (align n) bs then GivesOut heap.start ptr n bs after else (ptr ≡ 0))
  heap_malloc-GivesOut enough =
      let (ptr, m', e, f) = heap_malloc-Fits heap m bs is fuel n pos small enough in
      let up = align_bounds n small in
      (
        ptr,
        m',
        placed (align n) bs,
        e,
        record { chain = f.chain; small = is.small },
        f.spared,
        elim (Bool-cases (has_room (align n) bs)) [
          | inl room ↦
              let at : ptr ≡ heap.start + fit_offset (align n) bs = rw room at f.found in
              rw room (record {
                unused = λ a lo hi.
                    placed-unused (align n) heap.start bs a room (omega arith) (omega (arith, up));
                used = λ a lo hi.
                    placed-Allocated (align n) heap.start bs a room (omega arith)
                      (omega (arith, up));
                keeps = placed-keeps (align n) heap.start bs;
              })
          | inr full ↦ rw full (rw full at f.found)
        ],
      )

  -- On a heap of blocks without neighbouring free blocks, with fuel for two rounds more than there are
  -- blocks: where a free block is as large as the aligned size of a request that is not zero and does not wrap,
  -- heap_malloc gives an address that is not 0, and heap_free of it comes to an end and restores all the blocks.
  pub heap_free-heap_malloc :
      length bs + 1 < fuel
      → IsMerged bs
      → has_room (align n) bs ≡ true
      → (ptr : ℕ) × (m' : Store) × (m'' : Store) × (heap_malloc fuel heap n m ≡ some (ptr, m'))
        × (heap_free fuel heap ptr m' ≡ some m'')
        × (ptr ≢ 0)
        × IsHeap heap m'' bs
  heap_free-heap_malloc enough merged room =
      let (ptr, m', e, f) = heap_malloc-Fits heap m bs is fuel n pos small (omega arith) in
      let at : ptr ≡ heap.start + fit_offset (align n) bs = rw room at f.found in
      let owns : Owns heap.start ptr (placed (align n) bs) =
        rw at (placed-Owns (align n) heap.start bs room) in
      let (m'', e', fr) =
        heap_free-release heap m' (placed (align n) bs)
          (record { chain = f.chain; small = is.small }) fuel ptr owns
          (omega (arith, length-placed (align n) bs)) in
      let back : release heap.start ptr (placed (align n) bs) ≡ bs =
        rw at (release-placed (align n) heap.start bs room merged) in
      (
        ptr,
        m',
        m'',
        e,
        e',
        omega (arith, at, fit_offset-pos (align n) bs room),
        record { chain = rw back at fr.chain; small = is.small },
      )
