-- ===== src/Memory/Heap/Resize/Words.antt =====
-- What the word loops of heap_calloc and heap_realloc do to the store.
use m68k_system.Common.{ℕ, zero, suc, ◌+◌, ◌*◌, ◌≤◌, ◌<◌, ◌≡◌, ◌⊎◌, refl, arith, Store, write}
use m68k_system.Memory.Heap.Resize.{zero_words, copy_words}

pub zero_words-outside :
    (n p a : ℕ) (m : Store) → (a < p) ⊎ (p + 4 * n ≤ a) → zero_words n p m a ≡ m a
unfolding zero_words
zero_words-outside zero p a m h = refl
zero_words-outside (suc n) p a m h =
    ground (arith, zero_words-outside n p a (write m (p + 4 * n) 0))

pub zero_words-zero : (n p i : ℕ) (m : Store) → i < n → zero_words n p m (p + 4 * i) ≡ 0
unfolding zero_words
zero_words-zero zero p i m h = absurd (omega arith)
zero_words-zero (suc n) p i m h = ground (
  arith,
  zero_words-zero n p i (write m (p + 4 * n) 0),
  zero_words-outside n p (p + 4 * i) (write m (p + 4 * n) 0),
)

pub copy_words-outside :
    (n to from a : ℕ) (m : Store) → (a < to) ⊎ (to + 4 * n ≤ a) → copy_words n to from m a ≡ m a
unfolding copy_words
copy_words-outside zero to from a m h = refl
copy_words-outside (suc n) to from a m h =
    ground (arith, copy_words-outside n to from a (write m (to + 4 * n) (m (from + 4 * n))))

-- The copy is right where source and destination do not overlap.
pub copy_words-copied :
    (n to from i : ℕ) (m : Store)
    → (to + 4 * n ≤ from) ⊎ (from + 4 * n ≤ to)
    → i < n
    → copy_words n to from m (to + 4 * i) ≡ m (from + 4 * i)
unfolding copy_words
copy_words-copied zero to from i m apart h = absurd (omega arith)
copy_words-copied (suc n) to from i m apart h =
    let m1 = write m (to + 4 * n) (m (from + 4 * n)) in
    ground (arith, copy_words-copied n to from i m1, copy_words-outside n to from (to + 4 * i) m1)
