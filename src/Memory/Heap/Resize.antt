-- ===== src/Memory/Heap/Resize.antt =====
-- heap_calloc and heap_realloc of ayumos/kernel/memory/heap.c. Both go over the data in words of
-- four bytes, as the code does where MEMBLOCK_ALIGN is 2.
mod Words
mod Calloc
mod Blocks
mod Realloc
mod Tests
use m68k_system.Common.{
  ℕ, zero, suc, ◌+◌, ◌*◌, ◌/◌, ◌%◌, ◌^◌, Bool, not, ◌&&◌, Option, none, some, ltb, ◌==◌, ◌>>=◌,
  if◌then◌else◌, Store, write,
}
use m68k_system.Memory.Heap.{HeapCtx, header_of, magic, size, used_magic, heap_malloc, heap_free}

-- `n += (1 << MEMBLOCK_ALIGN) - 1; n >>= MEMBLOCK_ALIGN`, on 32 bits.
abbrev pub words : ℕ → ℕ
words n = (n + 3) % 2 ^ 32 / 4

-- `for(; n--;) ((u32 *) p)[n] = 0;`
pub zero_words : ℕ → ℕ → Store → Store
zero_words zero p m = m
zero_words (suc n) p m = zero_words n p (write m (p + 4 * n) 0)

-- `for(; n--;) ((u32 *) to)[n] = ((u32 *) from)[n];`
pub copy_words : ℕ → ℕ → ℕ → Store → Store
copy_words zero to from m = m
copy_words (suc n) to from m = copy_words n to from (write m (to + 4 * n) (m (from + 4 * n)))

-- heap_calloc
pub heap_calloc : ℕ → HeapCtx → ℕ → ℕ → Store → Option (ℕ × Store)
unfolding zero_words
heap_calloc fuel heap nmemb size m = do
  let n = nmemb * size % 2 ^ 32
  (p, m') ← heap_malloc fuel heap n m
  some (p, if p == 0 then m' else zero_words (words n) p m')

-- The part of heap_realloc behind its special cases: a new block, a copy, and the old block freed.
pub move_block : ℕ → HeapCtx → ℕ → ℕ → Store → Option (ℕ × Store)
move_block fuel heap ptr n m = do
  (pnew, m1) ← heap_malloc fuel heap n m
  let old = size m1 (header_of ptr)
  let kept = if ltb old n then old else n
  let m2 = heap_free fuel heap ptr (copy_words (words kept) pnew ptr m1) >>= λ m3. some (pnew, m3)
  if pnew == 0 then some (0, m1) else m2

-- heap_realloc
pub heap_realloc : ℕ → HeapCtx → ℕ → ℕ → Store → Option (ℕ × Store)
unfolding move_block copy_words
heap_realloc fuel heap ptr n m =
    if n == 0 && not (ptr == 0)
    then (heap_free fuel heap ptr m >>= λ m'. some (0, m'))
    else if ptr == 0 && not (n == 0)
    then heap_malloc fuel heap n m
    else if magic m (header_of ptr) == used_magic
    then move_block fuel heap ptr n m
    else some (0, m)
