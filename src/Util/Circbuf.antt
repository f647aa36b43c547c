-- ===== src/Util/Circbuf.antt =====
-- The circular byte buffer of ayumos/kernel/util/buffer.c and buffer.h, over a store of bytes.
-- What kmalloc returns is an argument of the allocation, 0 where it fails.
mod Queue
mod Refine
mod Tests
use m68k_system.Common.{
  ℕ, ◌+◌, Option, none, some, ◌==◌, if◌then◌else◌, Store, write, Code, success, eagain, enomem,
}

-- `circbuf_t`: four addresses.
pub record Circbuf : Type 0 where
  pub buf : ℕ
  pub buf_end : ℕ
  pub read_ptr : ℕ
  pub write_ptr : ℕ

-- circbuf_alloc, where kmalloc returns `p`.
pub circbuf_alloc : ℕ → ℕ → Circbuf → Code × Circbuf
circbuf_alloc p len c =
    if p == 0
    then (enomem, c)
    else (success, record { buf = p; buf_end = p + len; read_ptr = p; write_ptr = p })

-- A pointer moved on by one, and back to the start from the end.
abbrev advance : Circbuf → ℕ → ℕ
advance c p = if p + 1 == c.buf_end then c.buf else p + 1

-- circbuf_read: the result, what is stored through `val`, and the buffer.
pub circbuf_read : Circbuf → Store → Code × Option ℕ × Circbuf
circbuf_read c m =
    if c.read_ptr == c.write_ptr
    then (eagain, none, c)
    else (success, some (m c.read_ptr), record c { read_ptr = advance c c.read_ptr })

-- circbuf_write: the result, the buffer, and the store.
pub circbuf_write : Circbuf → ℕ → Store → Code × Circbuf × Store
circbuf_write c val m =
    let next = advance c c.write_ptr in
    if next == c.read_ptr
    then (eagain, c, m)
    else (success, record c { write_ptr = next }, write m c.write_ptr val)
