-- ===== src/Klibc/Bytes/Fill.antt =====
-- memset and bzero fill.
use m68k_system.Common.{
  ℕ, zero, suc, ◌+◌, ◌-◌, ◌*◌, ◌/◌, ◌%◌, ◌≤◌, ◌<◌, ◌≡◌, ◌∙◌, refl, ◌⊎◌, inl, inr, ltb, Store, write,
  arith, Bool-cases,
}
use m68k_system.Klibc.Bytes.{fill_up, memset, zero_head, zero_words, bzero}

-- The `n` bytes from `p` on are now `c`, and no other byte has changed.
pub record Filled (n p c : ℕ) (m m' : Store) : Type 0 where
  pub inside : (a : ℕ) → p ≤ a → a < p + n → m' a ≡ c
  pub outside : (a : ℕ) → (a < p) ⊎ (p + n ≤ a) → m' a ≡ m a

fill_up-outside : (n p c a : ℕ) (m : Store) → (a < p) ⊎ (p + n ≤ a) → fill_up n p c m a ≡ m a
unfolding fill_up
fill_up-outside zero p c a m h = refl
fill_up-outside (suc n) p c a m h = ground (arith, fill_up-outside n (p + 1) c a (write m p c))

fill_up-inside : (n p c a : ℕ) (m : Store) → p ≤ a → a < p + n → fill_up n p c m a ≡ c
unfolding fill_up
fill_up-inside zero p c a m lo hi = absurd (omega arith)
fill_up-inside (suc n) p c a m lo hi =
    ground (
      arith,
      fill_up-inside n (p + 1) c a (write m p c),
      fill_up-outside n (p + 1) c a (write m p c),
    )

zero_words-outside : (n p a : ℕ) (m : Store) → (a < p) ⊎ (p + 4 * n ≤ a) → zero_words n p m a ≡ m a
unfolding zero_words
zero_words-outside zero p a m h = refl
zero_words-outside (suc n) p a m h =
    let m1 = write (write (write (write m p 0) (p + 1) 0) (p + 2) 0) (p + 3) 0 in
    let here : m1 a ≡ m a = ground arith in ground (arith, here, zero_words-outside n (p + 4) a m1)

zero_words-inside : (n p a : ℕ) (m : Store) → p ≤ a → a < p + 4 * n → zero_words n p m a ≡ 0
unfolding zero_words
zero_words-inside zero p a m lo hi = absurd (omega arith)
zero_words-inside (suc n) p a m lo hi = elim (Bool-cases (ltb a (p + 4))) [
  | inl low ↦
      let m1 = write (write (write (write m p 0) (p + 1) 0) (p + 2) 0) (p + 3) 0 in
      let here : m1 a ≡ 0 = ground arith in
      zero_words-outside n (p + 4) a m1 (inl (ground arith)) ∙ here
  | inr high ↦ zero_words-inside n (p + 4) a _ (ground arith) (ground arith)
]

-- memset sets `n` bytes to the low byte of its value, and no other.
pub memset-Filled : (p c n : ℕ) (m : Store) → Filled n p (c % 256) m (memset p c n m)
unfolding memset
memset-Filled p c n m = record {
  inside = λ a lo hi. fill_up-inside n p (c % 256) a m lo hi;
  outside = λ a h. fill_up-outside n p (c % 256) a m h;
}

zero_head-le : (rounds p n : ℕ) → zero_head rounds p n ≤ n
unfolding zero_head
zero_head-le zero p n = omega arith
zero_head-le (suc rounds) p n = ground (arith, zero_head-le rounds (p + 1) (n - 1))

module _ (p n a : ℕ) (m : Store) where
  bzero-inside : p ≤ a → a < p + n → bzero p n m a ≡ 0
  unfolding bzero
  bzero-inside lo hi =
      let k = zero_head 3 p n in
      let w = (n - k) / 4 in
      let r = (n - k) % 4 in
      let m1 = fill_up k p 0 m in
      let m2 = zero_words w (p + k) m1 in
      ground (
        arith,
        zero_head-le 3 p n,
        fill_up-inside r (p + k + 4 * w) 0 a m2,
        fill_up-outside r (p + k + 4 * w) 0 a m2,
        zero_words-inside w (p + k) a m1,
        zero_words-outside w (p + k) a m1,
        fill_up-inside k p 0 a m,
        fill_up-outside k p 0 a m,
      )

  bzero-outside : (a < p) ⊎ (p + n ≤ a) → bzero p n m a ≡ m a
  unfolding bzero
  bzero-outside h =
      let k = zero_head 3 p n in
      let w = (n - k) / 4 in
      let r = (n - k) % 4 in
      let m1 = fill_up k p 0 m in
      let m2 = zero_words w (p + k) m1 in
      ground (
        arith,
        zero_head-le 3 p n,
        fill_up-outside r (p + k + 4 * w) 0 a m2,
        zero_words-outside w (p + k) a m1,
        fill_up-outside k p 0 a m,
      )

-- bzero clears `n` bytes, whatever the alignment, and no other.
pub bzero-Filled : (p n : ℕ) (m : Store) → Filled n p 0 m (bzero p n m)
bzero-Filled p n m = record {
  inside = λ a lo hi. bzero-inside p n a m lo hi;
  outside = λ a h. bzero-outside p n a m h;
}
