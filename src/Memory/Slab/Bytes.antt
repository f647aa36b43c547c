-- ===== src/Memory/Slab/Bytes.antt =====
-- What the search for a clear bit finds in a byte of the bitmap.
use Prim.Native.Nat.{bit_and, bit_or}
use m68k_system.Common.{
  ℕ, ◌+◌, ◌-◌, ◌/◌, ◌%◌, ◌^◌, ◌<◌, ◌≡◌, ◌≢◌, inl, inr, refl, Bool, true, false, not, ◌&&◌, ◌||◌,
  Option, none, some, ltb, ◌==◌, Bool-cases, all_below, all_below_sound, eq_of_eqb, lt_of_ltb, both,
  arith,
}
use m68k_system.Memory.Slab.{first_clear}

-- Bit `k` of a byte.
abbrev pub bit : ℕ → ℕ → ℕ
bit b k = b / 2 ^ k % 2

-- How many bits of a byte are clear.
abbrev pub clear_bits : ℕ → ℕ
clear_bits b = 8 - (bit b 0 + bit b 1 + bit b 2 + bit b 3 + bit b 4 + bit b 5 + bit b 6 + bit b 7)

abbrev same_bit : ℕ → ℕ → ℕ → Bool
same_bit b k j = j == k || bit (b + 2 ^ k) j == bit b j

abbrev is_found : ℕ → Option ℕ → Bool
is_found b none = false
is_found b (some k) =
    ltb k 8
    && (bit b k == 0
        && (bit (b + 2 ^ k) k == 1
            && (bit_or b (2 ^ k) == b + 2 ^ k
                && (ltb (b + 2 ^ k) 256
                    && (not (bit_and (b + 2 ^ k) (2 ^ k) == 0)
                        && (bit_and (b + 2 ^ k) (255 - 2 ^ k) == b
                            && (clear_bits (b + 2 ^ k) + 1 == clear_bits b
                                && all_below 8 (same_bit b k))))))))

-- The bit found in a byte: it was clear, and is the only one that changes when it is set.
pub record IsFound (b k : ℕ) : Type 0 where
  pub found : first_clear 8 b 1 ≡ some k
  pub small : k < 8
  pub was_clear : bit b k ≡ 0
  pub is_set : bit (b + 2 ^ k) k ≡ 1
  pub marked : bit_or b (2 ^ k) ≡ b + 2 ^ k
  pub byte : b + 2 ^ k < 256
  pub tested : (bit_and (b + 2 ^ k) (2 ^ k) == 0) ≡ false
  pub undone : bit_and (b + 2 ^ k) (255 - 2 ^ k) ≡ b
  pub counted : clear_bits (b + 2 ^ k) + 1 ≡ clear_bits b
  pub others : (j : ℕ) → j < 8 → j ≢ k → bit (b + 2 ^ k) j ≡ bit b j

all_found : all_below 255 (λ b. is_found b (first_clear 8 b 1)) ≡ true
unfolding all_below first_clear
all_found = refl

not-true : (b : Bool) → not b ≡ true → b ≡ false
not-true b h = ground arith

same_cases : (b k j : ℕ) → j ≢ k → same_bit b k j ≡ true → bit (b + 2 ^ k) j ≡ bit b j
same_cases b k j ne h = elim (Bool-cases (j == k)) [
  | inl e ↦ absurd (ne (eq_of_eqb j k e))
  | inr e ↦ eq_of_eqb _ _ (rw e at h)
]

IsFound-cases :
    (b : ℕ) (o : Option ℕ) → first_clear 8 b 1 ≡ o → is_found b o ≡ true → (k : ℕ) × IsFound b k
IsFound-cases b none e h = absurd (grind arith)
IsFound-cases b (some k) e h =
    let (h1, r1) = both (ltb k 8) _ h in
    let (h2, r2) = both (bit b k == 0) _ r1 in
    let (h3, r3) = both (bit (b + 2 ^ k) k == 1) _ r2 in
    let (h4, r4) = both (bit_or b (2 ^ k) == b + 2 ^ k) _ r3 in
    let (h5, r5) = both (ltb (b + 2 ^ k) 256) _ r4 in
    let (h6, r6) = both (not (bit_and (b + 2 ^ k) (2 ^ k) == 0)) _ r5 in
    let (h7, r7) = both (bit_and (b + 2 ^ k) (255 - 2 ^ k) == b) _ r6 in
    let (h8, h9) = both (clear_bits (b + 2 ^ k) + 1 == clear_bits b) _ r7 in
    (
      k,
      record {
        found = e;
        small = lt_of_ltb k 8 h1;
        was_clear = eq_of_eqb _ _ h2;
        is_set = eq_of_eqb _ _ h3;
        marked = eq_of_eqb _ _ h4;
        byte = lt_of_ltb _ 256 h5;
        tested = not-true _ h6;
        undone = eq_of_eqb _ _ h7;
        counted = eq_of_eqb _ _ h8;
        others = λ j l ne. same_cases b k j ne (all_below_sound 8 (same_bit b k) j h9 l);
      },
    )

pub first_clear-IsFound : (b : ℕ) → b < 255 → (k : ℕ) × IsFound b k
first_clear-IsFound b lt =
    IsFound-cases b (first_clear 8 b 1) refl
      (all_below_sound 255 (λ b. is_found b (first_clear 8 b 1)) b all_found lt)
