-- ===== src/Memory/Heap/Tests.antt =====
-- Runs of the heap on a small store, and the theorems at concrete heaps.
use m68k_system.Common.{
  ℕ, suc, ◌+◌, ◌≡◌, ◌≢◌, ◌*◌, refl, true, false, inl, some, none, Option, arith, List, [], ◌∷◌,
  length, Store, write, if◌then◌else◌,
}
use m68k_system.Memory.Heap.{
  HeapCtx, align, heap_init, heap_malloc, heap_free, heap_freemem, heap_usedmem, size, claim,
  malloc_loop,
}
use m68k_system.Memory.Heap.Chain.{Block, IsHeap, Allocated, has_room, free_bytes, used_bytes}
use m68k_system.Memory.Heap.Free.{Frees}
use m68k_system.Memory.Heap.Spec.{
  heap_init-IsHeap, heap_free-release, heap_freemem-add-heap_usedmem,
}
use m68k_system.Memory.Heap.Safety.{GivesOut, heap_malloc-GivesOut, heap_free-heap_malloc}
use m68k_system.Memory.Heap.Wrap.{heap_malloc-wraps}

abbrev clear : Store
clear a = 0

-- A heap of 64 bytes at 256: one free block of 48.
abbrev arena : HeapCtx
arena = record { start = 256; size = 64 }

abbrev fresh : Store
fresh = write (write (write (write clear 256 0xc91d58be) 260 48) 312 0xc91d58bf) 316 0

abbrev one_free : List Block
one_free = (false, 48) ∷ []

-- The same heap after an allocation of 8 bytes.
abbrev taken : Store
taken = write (write (write (write fresh 272 0xc91d58be) 276 32) 260 8) 256 0xc91d58bf

abbrev one_taken : List Block
one_taken = (true, 8) ∷ (false, 32) ∷ []

fresh-IsHeap : IsHeap arena fresh one_free
fresh-IsHeap = record { chain = (refl, refl, omega arith, (refl, refl, refl)); small = omega arith }

taken-IsHeap : IsHeap arena taken one_taken
taken-IsHeap = record {
  chain = (refl, refl, omega arith, (refl, refl, omega arith, (refl, refl, refl)));
  small = omega arith;
}

first_block : Option ℕ
unfolding heap_malloc
first_block = elim (heap_malloc 5 arena 5 fresh) [ none ↦ none | some (p, m) ↦ some p ]

first_block_address : first_block ≡ some 264
unfolding first_block malloc_loop align claim
first_block_address = refl

heap_init-IsHeap_example : IsHeap (heap_init 256 65 clear).0 (heap_init 256 65 clear).1 one_free
heap_init-IsHeap_example = heap_init-IsHeap 256 65 clear (omega arith) (omega arith)

heap_malloc-GivesOut_example :
    (ptr : ℕ) × (m' : Store) × (after : List Block) × (heap_malloc 3 arena 12 taken
      ≡ some (ptr, m'))
    × IsHeap arena m' after
    × ((a : ℕ) → Allocated 256 one_taken a → m' a ≡ taken a)
    × (if has_room (align 12) one_taken then GivesOut 256 ptr 12 one_taken after else (ptr ≡ 0))
heap_malloc-GivesOut_example =
    heap_malloc-GivesOut arena taken one_taken taken-IsHeap 3 12 (omega arith) (omega arith)
      (omega arith)

heap_free-heap_malloc_example :
    (ptr : ℕ) × (m' : Store) × (m'' : Store) × (heap_malloc 4 arena 12 taken ≡ some (ptr, m'))
    × (heap_free 4 arena ptr m' ≡ some m'')
    × (ptr ≢ 0)
    × IsHeap arena m'' one_taken
unfolding has_room align
heap_free-heap_malloc_example =
    heap_free-heap_malloc arena taken one_taken taken-IsHeap 4 12 (omega arith) (omega arith)
      (omega arith) tt refl

heap_free-release_example :
    (m' : Store) × (heap_free 4 arena 264 taken ≡ some m') × Frees 256 264 320 one_taken taken m'
heap_free-release_example =
    heap_free-release arena taken one_taken taken-IsHeap 4 264 (inl (refl, refl)) (omega arith)

heap_freemem-add-heap_usedmem_example :
    (free : ℕ) × (used : ℕ) × (heap_freemem 5 arena taken ≡ some free)
    × (heap_usedmem 5 arena taken ≡ some used)
    × (free ≡ free_bytes one_taken)
    × (used ≡ used_bytes one_taken)
    × (free + used + 8 * (length one_taken + 1) ≡ 64)
heap_freemem-add-heap_usedmem_example =
    heap_freemem-add-heap_usedmem arena taken one_taken taken-IsHeap 5 (omega arith)

heap_malloc-wraps_example :
    (m' : Store) × (heap_malloc 2 arena 4294967295 fresh ≡ some (264, m'))
    × (size m' 256 ≡ 0)
    × ((k rounds : ℕ) → heap_malloc (suc rounds) arena k m' ≡ some (0, m'))
heap_malloc-wraps_example =
    heap_malloc-wraps arena fresh 48 [] fresh-IsHeap 1 4294967295 (omega arith) (omega arith)
      (omega arith)
