-- ===== src/Klibc/Bytes/Copy.antt =====
-- bcopy and memcpy copy.
use m68k_system.Common.{
  ℕ, zero, suc, ◌+◌, ◌-◌, ◌*◌, ◌/◌, ◌%◌, ◌^◌, ◌≤◌, ◌<◌, ◌≡◌, ◌∙◌, refl, eq_of_eqb, ◌⊎◌, inl, inr,
  true, false, Bool-cases, ltb, ◌==◌, Store, write, arith,
}
use mathlib.Core.Path.{subst}
use m68k_system.Klibc.Bytes.{
  copy_up, copy_down, bcopy, copy_word, copy_words, head_bytes, memcpy_aligned, memcpy,
}

-- The `n` bytes from `dest` on are now what those from `src` on were, and no other byte has changed.
pub record Copied (n dest src : ℕ) (m m' : Store) : Type 0 where
  pub moved : (i : ℕ) → i < n → m' (dest + i) ≡ m (src + i)
  pub outside : (a : ℕ) → (a < dest) ⊎ (dest + n ≤ a) → m' a ≡ m a

-- Going up is right if no byte is written before it has been read.
abbrev Upward : ℕ → ℕ → ℕ → Type 0
Upward n dest src = (dest < src) ⊎ (src + n ≤ dest)

copy_up-outside :
    (n dest src a : ℕ) (m : Store) → (a < dest) ⊎ (dest + n ≤ a) → copy_up n dest src m a ≡ m a
unfolding copy_up
copy_up-outside zero dest src a m h = refl
copy_up-outside (suc n) dest src a m h =
    ground (arith, copy_up-outside n (dest + 1) (src + 1) a (write m dest (m src)))

copy_up-moved :
    (n dest src i : ℕ) (m : Store)
    → Upward n dest src
    → i < n
    → copy_up n dest src m (dest + i) ≡ m (src + i)
unfolding copy_up
copy_up-moved zero dest src i m up h = absurd (omega arith)
copy_up-moved (suc n) dest src zero m up h =
    let e : dest + 0 ≡ dest = omega arith in
    let e' : src + 0 ≡ src = omega arith in
    rw (e, e') (ground (arith, copy_up-outside n (dest + 1) (src + 1) dest (write m dest (m src))))
copy_up-moved (suc n) dest src (suc i) m up h =
    let e : dest + suc i ≡ dest + 1 + i = omega arith in
    let e' : src + suc i ≡ src + 1 + i = omega arith in
    rw (e, e') (ground (arith, copy_up-moved n (dest + 1) (src + 1) i (write m dest (m src))))

copy_up-Copied :
    (n dest src : ℕ) (m : Store) → Upward n dest src → Copied n dest src m (copy_up n dest src m)
copy_up-Copied n dest src m up = record {
  moved = λ i h. copy_up-moved n dest src i m up h;
  outside = λ a h. copy_up-outside n dest src a m h;
}

copy_down-outside :
    (n dest src a : ℕ) (m : Store) → (a < dest) ⊎ (dest + n ≤ a) → copy_down n dest src m a ≡ m a
unfolding copy_down
copy_down-outside zero dest src a m h = refl
copy_down-outside (suc n) dest src a m h =
    ground (arith, copy_down-outside n dest src a (write m (dest + n) (m (src + n))))

copy_down-moved :
    (n dest src i : ℕ) (m : Store)
    → src < dest
    → i < n
    → copy_down n dest src m (dest + i) ≡ m (src + i)
unfolding copy_down
copy_down-moved zero dest src i m down h = absurd (omega arith)
copy_down-moved (suc n) dest src i m down h =
    let m1 = write m (dest + n) (m (src + n)) in
    ground (arith, copy_down-moved n dest src i m1, copy_down-outside n dest src (dest + i) m1)

-- bcopy copies all `n` bytes right, also where source and destination overlap.
pub bcopy-Copied : (src dest n : ℕ) (m : Store) → Copied n dest src m (bcopy src dest n m)
unfolding bcopy
bcopy-Copied src dest n m = record {
  moved = λ i h. ground (arith, copy_down-moved n dest src i m, copy_up-moved n dest src i m);
  outside = λ a h. ground (arith, copy_down-outside n dest src a m, copy_up-outside n dest src a m);
}

-- The two ranges have no byte in common.
abbrev pub Apart : ℕ → ℕ → ℕ → Type 0
Apart n dest src = (dest + n ≤ src) ⊎ (src + n ≤ dest)

Apart-part :
    (k n dest src : ℕ) → Apart (k + n) dest src → Apart k dest src × Apart n (dest + k) (src + k)
Apart-part k n dest src (inl h) = (inl (omega arith), inl (omega arith))
Apart-part k n dest src (inr h) = (inr (omega arith), inr (omega arith))

-- Two copies in a row are one.
Copied-append :
    (k n dest src : ℕ) (m m1 m2 : Store)
    → Apart (k + n) dest src
    → Copied k dest src m m1
    → Copied n (dest + k) (src + k) m1 m2
    → Copied (k + n) dest src m m2
Copied-append k n dest src m m1 m2 apart c d = record {
  moved = λ i h. elim (Bool-cases (ltb i k)) [
    | inl low ↦ d.outside (dest + i) (inl (ground arith)) ∙ c.moved i (ground arith)
    | inr high ↦
        let e : dest + i ≡ dest + k + (i - k) = ground arith in
        let e' : src + k + (i - k) ≡ src + i = ground arith in
        rw e (d.moved (i - k) (ground arith) ∙ rw e' (c.outside (src + i) (ground arith)))
  ];
  outside = λ a h. d.outside a (ground arith) ∙ c.outside a (ground arith);
}

Apart-Upward : (n dest src : ℕ) → 0 < n → Apart n dest src → Upward n dest src
Apart-Upward n dest src pos (inl h) = inl (omega arith)
Apart-Upward n dest src pos (inr h) = inr (omega arith)

copy_word-moved :
    (dest src i : ℕ) (m : Store)
    → Apart 4 dest src
    → i < 4
    → copy_word dest src m (dest + i) ≡ m (src + i)
unfolding copy_word
copy_word-moved dest src zero m apart h = ground arith
copy_word-moved dest src (suc zero) m apart h = ground arith
copy_word-moved dest src (suc (suc zero)) m apart h = ground arith
copy_word-moved dest src (suc (suc (suc zero))) m apart h = ground arith
copy_word-moved dest src (suc (suc (suc (suc i)))) m apart h = absurd (omega arith)

copy_word-Copied :
    (dest src : ℕ) (m : Store) → Apart 4 dest src → Copied 4 dest src m (copy_word dest src m)
unfolding copy_word
copy_word-Copied dest src m apart = record {
  moved = λ i h. unfold copy_word in copy_word-moved dest src i m apart h;
  outside = λ a h. ground arith;
}

copy_words-Copied :
    (n dest src : ℕ) (m : Store)
    → Apart (4 * n) dest src
    → Copied (4 * n) dest src m (copy_words n dest src m)
unfolding copy_words
copy_words-Copied zero dest src m apart = record {
  moved = λ i h. absurd (omega arith);
  outside = λ a h. refl;
}
copy_words-Copied (suc n) dest src m apart =
    let e : 4 * suc n ≡ 4 + 4 * n = omega arith in
    let parts = Apart-part 4 (4 * n) dest src (rw e at apart) in
    rw e (
      Copied-append 4 (4 * n) dest src m (copy_word dest src m)
        (copy_words n (dest + 4) (src + 4) (copy_word dest src m)) (rw e at apart)
        (copy_word-Copied dest src m parts.0)
        (copy_words-Copied n (dest + 4) (src + 4) (copy_word dest src m) parts.1))

copy_up-Apart :
    (n dest src : ℕ) (m : Store) → Apart n dest src → Copied n dest src m (copy_up n dest src m)
unfolding copy_up
copy_up-Apart zero dest src m apart = record {
  moved = λ i h. absurd (omega arith);
  outside = λ a h. refl;
}
copy_up-Apart (suc n) dest src m apart =
    unfold copy_up in
    copy_up-Copied (suc n) dest src m (Apart-Upward (suc n) dest src (omega arith) apart)

words_tail-Copied :
    (w r dest src : ℕ) (m : Store)
    → Apart (4 * w + r) dest src
    → Copied
        (4 * w + r)
        dest
        src
        m
        (copy_up r (dest + 4 * w) (src + 4 * w) (copy_words w dest src m))
words_tail-Copied w r dest src m apart =
    let p = Apart-part (4 * w) r dest src apart in
    let m1 = copy_words w dest src m in
    Copied-append (4 * w) r dest src m m1 (copy_up r (dest + 4 * w) (src + 4 * w) m1) apart
      (copy_words-Copied w dest src m p.0) (copy_up-Apart r (dest + 4 * w) (src + 4 * w) m1 p.1)

-- The three stages of memcpy on a word boundary, for a head of `k` bytes and `left` bytes more.
stages-Copied :
    (k left dest src : ℕ) (m : Store)
    → Apart (k + left) dest src
    → Copied (k + left) dest src m (
        copy_up
          (left % 4)
          (dest + k + 4 * (left / 4))
          (src + k + 4 * (left / 4))
          (copy_words (left / 4) (dest + k) (src + k) (copy_up k dest src m)))
stages-Copied k left dest src m apart =
    let split : 4 * (left / 4) + left % 4 ≡ left = omega arith in
    let p = Apart-part k left dest src apart in
    let m1 = copy_up k dest src m in
    let later = words_tail-Copied (left / 4) (left % 4) (dest + k) (src + k) m1 (rw split p.1) in
    Copied-append k left dest src m m1 _ apart (copy_up-Apart k dest src m p.0) (
      subst
        (λ n. Copied n (dest + k) (src + k) m1 (
          copy_up (left % 4) (dest + k + 4 * (left / 4)) (src + k + 4 * (left / 4))
            (copy_words (left / 4) (dest + k) (src + k) m1)))
        split later)

stages-upto :
    (k left n dest src : ℕ) (m : Store)
    → k + left ≡ n
    → Apart n dest src
    → Copied n dest src m (
        copy_up
          (left % 4)
          (dest + k + 4 * (left / 4))
          (src + k + 4 * (left / 4))
          (copy_words (left / 4) (dest + k) (src + k) (copy_up k dest src m)))
stages-upto k left n dest src m e =
    subst
      (λ j.
        Apart j dest src
        → Copied j dest src m (
            copy_up (left % 4) (dest + k + 4 * (left / 4)) (src + k + 4 * (left / 4))
              (copy_words (left / 4) (dest + k) (src + k) (copy_up k dest src m))))
      e (stages-Copied k left dest src m)

-- The bytes from `src` up to the next word boundary.
abbrev pub gap : ℕ → ℕ
gap src = (4 - src % 4) % 4

head_bytes-gap : (src n : ℕ) → gap src ≤ n → head_bytes 3 src n ≡ (gap src, n - gap src)
unfolding head_bytes
head_bytes-gap src n h = ground arith

head_bytes-wraps : (src n : ℕ) → n < gap src → head_bytes 3 src n ≡ (n, 2 ^ 32 - 1)
unfolding head_bytes
head_bytes-wraps src n h = ground arith

-- memcpy copies `n` bytes right, if source and destination are apart, and if, where both have the
-- same offset from a word boundary, the count reaches at least to that boundary.
pub memcpy-Copied :
    (dest src n : ℕ) (m : Store)
    → Apart n dest src
    → (src % 4 ≡ dest % 4 → gap src ≤ n)
    → Copied n dest src m (memcpy dest src n m)
unfolding memcpy memcpy_aligned
memcpy-Copied dest src n m apart reach = elim (Bool-cases (n == 0)) [
  | inl empty ↦ rw empty (record { moved = λ i h. absurd (ground arith); outside = λ a h. refl })
  | inr more ↦ elim (Bool-cases (src % 4 == dest % 4)) [
    | inl same ↦
        let r = reach (eq_of_eqb (src % 4) (dest % 4) same) in
        let whole : gap src + (n - gap src) ≡ n = omega arith in
        rw (more, same, head_bytes-gap src n r)
          (stages-upto (gap src) (n - gap src) n dest src m whole apart)
    | inr differ ↦ rw (more, differ) (copy_up-Apart n dest src m apart)
  ]
]

-- Where source and destination have the same offset from a word boundary and the count is positive
-- but does not reach to that boundary, memcpy copies 2 ^ 32 - 1 bytes more than it was asked to,
-- if as many bytes from source and destination on are apart.
pub memcpy_overruns :
    (dest src n : ℕ) (m : Store)
    → src % 4 ≡ dest % 4
    → 0 < n
    → n < gap src
    → Apart (n + (2 ^ 32 - 1)) dest src
    → Copied (n + (2 ^ 32 - 1)) dest src m (memcpy dest src n m)
unfolding memcpy memcpy_aligned
memcpy_overruns dest src n m same pos short apart =
    let more : (n == 0) ≡ false = ground arith in
    let aligned : (src % 4 == dest % 4) ≡ true = ground arith in
    rw (more, aligned, head_bytes-wraps src n short) (stages-Copied n (2 ^ 32 - 1) dest src m apart)
