-- ===== src/Memory/Extents/Search.antt =====
-- The searches find what they look for.
use m68k_system.Common.{
  ℕ, ◌+◌, ◌%◌, ◌^◌, ◌≤◌, ◌<◌, ◌≡◌, ◌⊎◌, refl, Bool-cases, inl, inr, true, ◌&&◌, Option, none, some,
  List, [], ◌∷◌, ltb, arith,
}
use m68k_system.Memory.Extents.{
  Extent, matches, largest_loop, mem_get_largest_extent, mem_get_containing_extent,
}

abbrev pub Among : Extent → List Extent → Type 0
Among e [] = ⊥
Among e (x ∷ xs) = (e ≡ x) ⊎ Among e xs

-- No extent that matches is longer than `n`.
abbrev pub AtMost : ℕ → ℕ → List Extent → Type 0
AtMost fl n [] = Unit {0}
AtMost fl n (x ∷ xs) = (matches fl x ≡ true → x.len ≤ n) × AtMost fl n xs

AtMost-le : (fl n k : ℕ) (es : List Extent) → n ≤ k → AtMost fl n es → AtMost fl k es
AtMost-le fl n k [] h a = tt
AtMost-le fl n k (e ∷ es) h a = (λ fits. omega (arith, a.0 fits), AtMost-le fl n k es h a.1)

-- The result is a longest extent that matches and is longer than `n`, or `other` where there is none.
abbrev pub Longest : ℕ → ℕ → Option Extent → List Extent → Option Extent → Type 0
Longest fl n other es r =
    ((r ≡ other) × AtMost fl n es)
    ⊎ ((e : Extent) × (r ≡ some e)
        × Among e es
        × (matches fl e ≡ true)
        × (n < e.len)
        × AtMost fl e.len es)

largest_loop-Longest :
    (fl sz : ℕ) (ret : Option Extent) (es : List Extent)
    → Longest fl sz ret es (largest_loop fl sz ret es)
unfolding largest_loop
largest_loop-Longest fl sz ret [] = inl (refl, tt)
largest_loop-Longest fl sz ret (x ∷ xs) = elim (Bool-cases (matches fl x)) [
  | inl fits ↦ elim (Bool-cases (ltb sz x.len)) [
    | inl longer ↦
        rw (fits, longer)
          (elim (largest_loop-Longest fl x.len (some x) xs) [
            | inl (same, most) ↦
                inr (x, same, inl refl, fits, ground arith, (λ h. omega arith, most))
            | inr (e, same, among, match, more, most) ↦
                inr (e, same, inr among, match, ground arith, (λ h. omega arith, most))
          ])
    | inr shorter ↦
        rw (fits, shorter)
          (elim (largest_loop-Longest fl sz ret xs) [
            | inl (same, most) ↦ inl (same, (λ h. ground arith, most))
            | inr (e, same, among, match, more, most) ↦
                inr (e, same, inr among, match, more, (λ h. ground arith, most))
          ])
  ]
  | inr misfit ↦ rw misfit (elim (largest_loop-Longest fl sz ret xs) [
    | inl (same, most) ↦ inl (same, (λ h. ground arith, most))
    | inr (e, same, among, match, more, most) ↦
        inr (e, same, inr among, match, more, (λ h. ground arith, most))
  ])
]

-- For all flags and extents: mem_get_largest_extent gives an extent of the list that matches, is not empty, and is not shorter
-- than any other that matches, or NULL where all that match are empty.
pub mem_get_largest_extent-Longest :
    (fl : ℕ) (es : List Extent) → Longest fl 0 none es (mem_get_largest_extent fl es)
unfolding mem_get_largest_extent
mem_get_largest_extent-Longest fl es = largest_loop-Longest fl 0 none es

-- The extents that hold the address behind their first byte.
abbrev pub Inside : ℕ → Extent → Type 0
Inside addr e = (e.base < addr) × (addr < (e.base + e.len) % 2 ^ 32)

abbrev pub NoneInside : ℕ → List Extent → Type 0
NoneInside addr [] = Unit {0}
NoneInside addr (e ∷ es) = (Inside addr e → ⊥) × NoneInside addr es

-- For all addresses and extents: mem_get_containing_extent gives an extent of the list in which the address lies behind
-- the first byte, or NULL where there is none; an extent's own base address is not taken for one inside it.
pub mem_get_containing_extent-Inside :
    (addr : ℕ) (es : List Extent)
    → ((e : Extent) × (mem_get_containing_extent addr es ≡ some e) × Among e es × Inside addr e)
      ⊎ ((mem_get_containing_extent addr es ≡ none) × NoneInside addr es)
unfolding mem_get_containing_extent
mem_get_containing_extent-Inside addr [] = inr (refl, tt)
mem_get_containing_extent-Inside addr (x ∷ xs) =
    elim (Bool-cases (ltb x.base addr && ltb addr ((x.base + x.len) % 2 ^ 32))) [
      | inl here ↦ rw here (inl (x, refl, inl refl, ground arith))
      | inr away ↦ rw away (elim (mem_get_containing_extent-Inside addr xs) [
        | inl (e, same, among, inside) ↦ inl (e, same, inr among, inside)
        | inr (same, none_inside) ↦ inr (same, (λ h. ground arith, none_inside))
      ])
    ]
