-- ===== src/Memory/Heap.antt =====
-- The first-fit heap of ayumos/kernel/memory/heap.c and heap.h, over an explicit store. A header
-- is two words of the store, its magic number and, four bytes on, its size. A function that
-- updates the heap returns the new store beside its result. Loops that follow the chain of headers
-- take fuel and give `none` when it runs out. `preempt_disable` and `preempt_enable` bracket each
-- function, so that it runs undisturbed; they change nothing that is modelled.
mod Chain
mod Free
mod Malloc
mod Count
mod Fresh
pub mod Resize
mod Spec
mod Safety
mod Wrap
mod Tests
use m68k_system.Common.{
  ℕ, zero, suc, ◌+◌, ◌-◌, ◌*◌, ◌%◌, ◌^◌, Bool, not, ◌&&◌, Option, none, some, ltb, leb, ◌==◌,
  if◌then◌else◌, Store, write,
}

-- `heap_ctx`
pub record HeapCtx : Type 0 where
  pub start : ℕ
  pub size : ℕ

-- MEMBLOCK_HDR_MAGIC; its lowest bit is clear, and marks a used block when set.
abbrev pub memblock_hdr_magic : ℕ
memblock_hdr_magic = 0xc91d58be

abbrev pub used_magic : ℕ
used_magic = memblock_hdr_magic + 1

-- sizeof(heap_memblock)
abbrev pub header_size : ℕ
header_size = 8

-- `p->magic` and `p->size`
abbrev pub magic : Store → ℕ → ℕ
magic m p = m p

abbrev pub size_field : ℕ → ℕ
size_field p = p + 4

abbrev pub size : Store → ℕ → ℕ
size m p = m (size_field p)

-- `p->magic & 0x1`
abbrev pub in_use : Store → ℕ → Bool
in_use m p = magic m p % 2 == 1

-- The address of the header behind the block at `p`.
abbrev pub next : Store → ℕ → ℕ
next m p = p + size m p + header_size

-- `mem_len &= ~0x1`
abbrev pub round_even : ℕ → ℕ
round_even n = n - n % 2

-- heap_init
pub heap_init : ℕ → ℕ → Store → HeapCtx × Store
heap_init mem mem_len m =
    let len = round_even mem_len in
    let free_size = (len + 2 ^ 32 - 2 * header_size) % 2 ^ 32 in
    let last = mem + free_size + header_size in
    let m1 = write (write m mem memblock_hdr_magic) (size_field mem) free_size in
    (record { start = mem; size = len }, write (write m1 last used_magic) (size_field last) 0)

-- `(size + MEMBLOCK_ALIGN_MASK) & ~MEMBLOCK_ALIGN_MASK`, on 32 bits.
pub align : ℕ → ℕ
align n = let s = (n + 3) % 2 ^ 32 in s - s % 4

-- The block at `p` becomes an allocated one of `n` bytes; what is left becomes a free block, if
-- there is room for one.
pub claim : ℕ → ℕ → Store → Store
claim n p m =
    let p2 = p + header_size + n in
    let m1 =
      if ltb (header_size + 3) (size m p - n)
      then write
          (write (write m p2 memblock_hdr_magic) (size_field p2) (size m p - (n + header_size)))
          (size_field p) n
      else m in
    write m1 p (magic m1 p + 1)

-- The walk of heap_malloc over the headers from `p` on.
pub malloc_loop : ℕ → ℕ → ℕ → Store → Option (ℕ × Store)
malloc_loop zero n p m = none
malloc_loop (suc fuel) n p m =
    let rest = malloc_loop fuel n (next m p) m in
    if size m p == 0
    then some (0, m)
    else if not (in_use m p) && leb n (size m p)
    then some (p + header_size, claim n p m)
    else rest

-- heap_malloc: the address of the new block, or 0.
pub heap_malloc : ℕ → HeapCtx → ℕ → Store → Option (ℕ × Store)
heap_malloc fuel heap n m = if n == 0 then some (0, m) else malloc_loop fuel (align n) heap.start m

-- The loop of heap_free that merges the free blocks from `q` on into the block at `p`.
pub merge_loop : ℕ → HeapCtx → ℕ → ℕ → Store → Option Store
merge_loop zero heap p q m = none
merge_loop (suc fuel) heap p q m =
    let grown = (size m p + (size m q + header_size)) % 2 ^ 32 in
    let rest = merge_loop fuel heap p (next m q) (write m (size_field p) grown) in
    if ltb q (heap.start + heap.size) && not (in_use m q) then rest else some m

-- The header of the block with its data at `ptr`.
abbrev pub header_of : ℕ → ℕ
header_of ptr = (ptr + 2 ^ 32 - header_size) % 2 ^ 32

-- heap_free: a pointer that is not to an allocated block is left alone.
pub heap_free : ℕ → HeapCtx → ℕ → Store → Option Store
heap_free fuel heap ptr m =
    let p = header_of ptr in
    if ptr == 0
    then some m
    else if magic m p == used_magic
    then merge_loop fuel heap p (ptr + size m p) (write m p memblock_hdr_magic)
    else some m

-- The walk of heap_freemem and heap_usedmem: the sizes of the blocks with the magic number `which`.
pub count_loop : ℕ → HeapCtx → ℕ → ℕ → ℕ → Store → Option ℕ
count_loop zero heap which p acc m = none
count_loop (suc fuel) heap which p acc m =
    let acc' = if magic m p == which then (acc + size m p) % 2 ^ 32 else acc in
    let rest = count_loop fuel heap which (next m p) acc' m in
    if ltb p (heap.start + heap.size) then rest else some acc

-- heap_freemem
pub heap_freemem : ℕ → HeapCtx → Store → Option ℕ
heap_freemem fuel heap m = count_loop fuel heap memblock_hdr_magic heap.start 0 m

-- heap_usedmem
pub heap_usedmem : ℕ → HeapCtx → Store → Option ℕ
heap_usedmem fuel heap m = count_loop fuel heap used_magic heap.start 0 m
