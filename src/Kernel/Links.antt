-- ===== src/Kernel/Links.antt =====
-- The doubly linked lists of ayumos/kernel/include/list.h, over the two links that memory has for each item. A list is a
-- ring of its items through its head.
pub mod Chain
mod Insertion
mod Deletion
mod Tests
use m68k_system.Common.{ℕ, Store, write}

-- `list_t`: the links of all items, by address.
pub record Links : Type 0 where
  pub next : Store
  pub prev : Store

-- LIST_INVALID_ITEM
abbrev pub list_invalid_item : ℕ
list_invalid_item = 3223175390

-- list_init
pub list_init : Links → ℕ → Links
list_init m l = record { next = write m.next l l; prev = write m.prev l l }

-- do_list_append
pub do_list_append : Links → ℕ → ℕ → ℕ → Links
do_list_append m new prev next = record {
  next = write (write m.next new next) prev new;
  prev = write (write m.prev next new) new prev;
}

-- do_list_delete
pub do_list_delete : Links → ℕ → ℕ → Links
do_list_delete m prev next = record { next = write m.next prev next; prev = write m.prev next prev }

-- list_append
pub list_append : Links → ℕ → ℕ → Links
list_append m new item = do_list_append m new item (m.next item)

-- list_insert
pub list_insert : Links → ℕ → ℕ → Links
list_insert m new item = do_list_append m new (m.prev item) item

-- list_delete
pub list_delete : Links → ℕ → Links
list_delete m item =
    let m' = do_list_delete m (m.prev item) (m.next item) in
    record {
      next = write m'.next item list_invalid_item;
      prev = write m'.prev item list_invalid_item;
    }

-- list_move_append
pub list_move_append : Links → ℕ → ℕ → Links
list_move_append m item dest = list_append (do_list_delete m (m.prev item) (m.next item)) item dest

-- list_move_insert
pub list_move_insert : Links → ℕ → ℕ → Links
list_move_insert m item dest = list_insert (do_list_delete m (m.prev item) (m.next item)) item dest
