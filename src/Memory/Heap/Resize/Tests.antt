-- ===== src/Memory/Heap/Resize/Tests.antt =====
-- The theorems on heap_calloc and heap_realloc at concrete heaps.
use m68k_system.Common.{ℕ, ◌≡◌, refl, true, false, inl, some, arith, List, [], ◌∷◌, Store, write}
use m68k_system.Memory.Heap.{HeapCtx}
use m68k_system.Memory.Heap.Chain.{Block, IsHeap}
use m68k_system.Memory.Heap.Resize.{heap_calloc, heap_realloc}
use m68k_system.Memory.Heap.Resize.Calloc.{Clears, heap_calloc-Clears}
use m68k_system.Memory.Heap.Resize.Realloc.{Reallocates, heap_realloc-Reallocates}

abbrev arena : HeapCtx
arena = record { start = 256; size = 64 }

-- A used block of 8 bytes that holds 7 and 9, and a free one of 32.
abbrev store : Store
store =
    write
      (write
        (write
          (write (write (write (write (write (λ a. 5) 256 0xc91d58bf) 260 8) 264 7) 268 9) 272
            0xc91d58be)
          276 32)
        312 0xc91d58bf)
      316 0

abbrev blocks : List Block
blocks = (true, 8) ∷ (false, 32) ∷ []

store-IsHeap : IsHeap arena store blocks
store-IsHeap = record {
  chain = (refl, refl, omega arith, (refl, refl, omega arith, (refl, refl, refl)));
  small = omega arith;
}

heap_calloc-Clears_example :
    (ptr : ℕ) × (m' : Store) × (heap_calloc 3 arena 3 4 store ≡ some (ptr, m'))
    × Clears arena 12 blocks store ptr m'
heap_calloc-Clears_example =
    heap_calloc-Clears arena store blocks store-IsHeap 3 3 4 (omega arith) (omega arith)
      (omega arith)

heap_realloc-Reallocates_example :
    (pnew : ℕ) × (m' : Store) × (heap_realloc 4 arena 264 16 store ≡ some (pnew, m'))
    × Reallocates arena store blocks store-IsHeap 16 264
        (omega arith)
        (omega arith)
        (inl (refl, refl))
        pnew
        m'
heap_realloc-Reallocates_example =
    heap_realloc-Reallocates arena store blocks store-IsHeap 16 264 (omega arith) (omega arith)
      (inl (refl, refl)) 4 (omega arith)
