-- ===== src/Memory/Slab/Bitmap.antt =====
-- What the search for a free object does to the bitmap, and what freeing the object does.
use Prim.Native.Nat.{bit_and}
use m68k_system.Common.{
  ℕ, suc, ◌+◌, ◌-◌, ◌*◌, ◌/◌, ◌%◌, ◌^◌, ◌<◌, ◌≡◌, ◌≢◌, ◌∙◌, sym, refl, ap, ◌⊎◌, inl, inr, true,
  false, some, List, [], ◌∷◌, ltb, ◌==◌, length, get_or, set, Bool-cases, eq_of_eqb, arith,
}
use m68k_system.Memory.Slab.{take_object}
use m68k_system.Memory.Slab.Bytes.{bit, clear_bits, IsFound, first_clear-IsFound}

-- The bit of an object, and how many bits are clear.
unfoldable pub bit_at : List ℕ → ℕ → ℕ
bit_at bitmap obj = bit (get_or bitmap (obj / 8) 0) (obj % 8)

unfoldable pub clear_count : List ℕ → ℕ
clear_count [] = 0
clear_count (b ∷ bs) = clear_bits b + clear_count bs

unfoldable pub AreBytes : List ℕ → Type 0
AreBytes [] = Unit
AreBytes (b ∷ bs) = (b < 256) × AreBytes bs

-- The object taken: it was free, and is the only one whose bit changes.
pub record IsTaken (bitmap : List ℕ) (obj : ℕ) (marked : List ℕ) : Type 0 where
  pub taken : take_object bitmap ≡ some (obj, marked)
  pub inside : obj < 8 * length bitmap
  pub was_free : bit_at bitmap obj ≡ 0
  pub in_use : bit_at marked obj ≡ 1
  pub others : (j : ℕ) → j ≢ obj → bit_at marked j ≡ bit_at bitmap j
  pub counted : clear_count marked + 1 ≡ clear_count bitmap
  pub bytes : AreBytes marked
  pub size : length marked ≡ length bitmap
  pub tested : (bit_and (get_or marked (obj / 8) 0) (2 ^ (obj % 8)) == 0) ≡ false
  pub undone :
      set marked (obj / 8) (bit_and (get_or marked (obj / 8) 0) (255 - 2 ^ (obj % 8))) ≡ bitmap

bit_at_low : (b : ℕ) (bs : List ℕ) (j : ℕ) → j < 8 → bit_at (b ∷ bs) j ≡ bit b j
unfolding bit_at
bit_at_low b bs j l =
    let first : j / 8 ≡ 0 = omega arith in
    let same : j % 8 ≡ j = omega arith in rw (first, same) refl

bit_at_high : (b : ℕ) (bs : List ℕ) (j : ℕ) → bit_at (b ∷ bs) (j + 8) ≡ bit_at bs j
unfolding bit_at
bit_at_high b bs j =
    let next : (j + 8) / 8 ≡ suc (j / 8) = omega arith in
    let same : (j + 8) % 8 ≡ j % 8 = omega arith in rw (next, same) refl

-- An object is one of the first byte or of those behind it.
low_or_high : (j : ℕ) → (j < 8) ⊎ ((i : ℕ) × (j ≡ i + 8))
low_or_high j = elim (Bool-cases (ltb j 8)) [
  | inl e ↦ inl (ground arith)
  | inr e ↦ inr (j - 8, ground arith)
]

take_here :
    (b k : ℕ) (bs : List ℕ)
    → (b == 255) ≡ false
    → IsFound b k
    → take_object (b ∷ bs) ≡ some (k, (b + 2 ^ k) ∷ bs)
unfolding take_object
take_here b k bs e f = rw (e, f.found, f.marked) refl

take_later :
    (b obj : ℕ) (bs marked : List ℕ)
    → (b == 255) ≡ true
    → take_object bs ≡ some (obj, marked)
    → take_object (b ∷ bs) ≡ some (obj + 8, b ∷ marked)
unfolding take_object
take_later b obj bs marked e h = rw (e, h) refl

IsTaken-here :
    (b k : ℕ) (bs : List ℕ)
    → (b == 255) ≡ false
    → AreBytes bs
    → IsFound b k
    → IsTaken (b ∷ bs) k ((b + 2 ^ k) ∷ bs)
unfolding bit_at clear_count AreBytes
IsTaken-here b k bs e all f =
    let small = f.small in
    let first : k / 8 ≡ 0 = omega arith in
    let same : k % 8 ≡ k = omega arith in
    record {
      taken = take_here b k bs e f;
      inside = omega arith;
      was_free = rw (first, same) (f.was_clear);
      in_use = rw (first, same) (f.is_set);
      others = (λ j ne. elim (low_or_high j) [
        | inl l ↦ bit_at_low (b + 2 ^ k) bs j l ∙ f.others j l ne ∙ sym (bit_at_low b bs j l)
        | inr h ↦
            (let (i, e') = h in rw e' (bit_at_high (b + 2 ^ k) bs i ∙ sym (bit_at_high b bs i)))
      ]);
      counted = (let c = f.counted in omega arith);
      bytes = (f.byte, all);
      size = refl;
      tested = rw (first, same) (f.tested);
      undone = rw (first, same) (ap (λ (x : ℕ). x ∷ bs) (f.undone));
    }

IsTaken-later :
    (b obj : ℕ) (bs marked : List ℕ)
    → b < 256
    → (b == 255) ≡ true
    → IsTaken bs obj marked
    → IsTaken (b ∷ bs) (obj + 8) (b ∷ marked)
unfolding clear_count AreBytes
IsTaken-later b obj bs marked byte e t =
    let next : (obj + 8) / 8 ≡ suc (obj / 8) = omega arith in
    let same : (obj + 8) % 8 ≡ obj % 8 = omega arith in
    let inside = t.inside in
    let counted = t.counted in
    record {
      taken = take_later b obj bs marked e (t.taken);
      inside = omega arith;
      was_free = bit_at_high b bs obj ∙ t.was_free;
      in_use = bit_at_high b marked obj ∙ t.in_use;
      others = (λ j ne. elim (low_or_high j) [
        | inl l ↦ bit_at_low b marked j l ∙ sym (bit_at_low b bs j l)
        | inr h ↦
            (let (i, e') = h in
              rw e' (
                bit_at_high b marked i
                ∙ t.others i (λ x. ne (e' ∙ ap (λ (y : ℕ). y + 8) x))
                ∙ sym (bit_at_high b bs i)))
      ]);
      counted = omega arith;
      bytes = (byte, t.bytes);
      size = ap suc (t.size);
      tested = rw (next, same) (t.tested);
      undone = rw (next, same) (ap (λ (x : List ℕ). b ∷ x) (t.undone));
    }

full_byte : clear_bits 255 ≡ 0
full_byte = refl

-- For a bitmap with a clear bit: the search ends within it and takes an object that was free. The object is then in use,
-- the others are what they were, there is one free object less, and the two writes of slab_free give back the bitmap.
pub take_object_takes :
    (bitmap : List ℕ)
    → AreBytes bitmap
    → 0 < clear_count bitmap
    → (obj : ℕ) × (marked : List ℕ) × IsTaken bitmap obj marked
unfolding AreBytes clear_count
take_object_takes [] all some_clear = absurd (omega arith)
take_object_takes (b ∷ bs) (byte, all) some_clear = elim (Bool-cases (b == 255)) [
  | inr e ↦
      (let (k, f) = first_clear-IsFound b (ground arith) in
        (k, (b + 2 ^ k) ∷ bs, IsTaken-here b k bs e all f))
  | inl e ↦
      (let full = eq_of_eqb b 255 e in
        let none_here : clear_bits b ≡ 0 = rw full refl in
        let (obj, marked, t) = take_object_takes bs all (omega arith) in
        (obj + 8, b ∷ marked, IsTaken-later b obj bs marked byte e t))
]
