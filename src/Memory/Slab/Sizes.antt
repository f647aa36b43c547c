-- ===== src/Memory/Slab/Sizes.antt =====
-- Which objects serve which sizes.
use m68k_system.Common.{
  ℕ, ◌+◌, ◌-◌, ◌^◌, ◌≤◌, ◌<◌, ◌≡◌, ◌⊎◌, refl, Bool, true, false, ◌&&◌, ◌||◌, Option, none, some,
  ltb, leb, ◌==◌, all_below, all_below_sound, arith,
}
use m68k_system.Memory.Slab.{radix_of, log2_loop}

-- What is wanted of a radix for a size.
abbrev suits : ℕ → Option ℕ → Bool
suits size none = false
suits size (some r) = leb 1 r && leb r 6 && leb size (2 ^ r) && (r == 1 || ltb (2 ^ (r - 1)) size)

suits_cases :
    (size : ℕ) (o : Option ℕ)
    → suits size o ≡ true
    → (r : ℕ) × (o ≡ some r) × (1 ≤ r) × (r ≤ 6) × (size ≤ 2 ^ r) × ((r ≡ 1) ⊎ (2 ^ (r - 1) < size))
suits_cases size none h = absurd (grind arith)
suits_cases size (some r) h = (r, refl, ground arith, ground arith, ground arith, ground arith)

all_suit : all_below 64 (λ n. suits (n + 1) (radix_of (n + 1))) ≡ true
unfolding all_below radix_of log2_loop
all_suit = refl

-- For a size from 1 to 64: the loop ends, with a radix from 1 to 6, and the objects of that radix are the smallest that
-- hold the size.
pub radix_of_smallest :
    (size : ℕ)
    → 0 < size
    → size ≤ 64
    → (r : ℕ) × (radix_of size ≡ some r)
      × (1 ≤ r)
      × (r ≤ 6)
      × (size ≤ 2 ^ r)
      × ((r ≡ 1) ⊎ (2 ^ (r - 1) < size))
radix_of_smallest size pos le =
    let e : size - 1 + 1 ≡ size = omega arith in
    let checked =
      all_below_sound 64 (λ n. suits (n + 1) (radix_of (n + 1))) (size - 1) all_suit
        (omega arith) in
    suits_cases size (radix_of size) (rw e at checked)
