-- ===== src/Net/Ports/Places.antt =====
-- Where the release of a port looks for its bit.
use m68k_system.Common.{
  ℕ, zero, suc, ◌+◌, ◌-◌, ◌*◌, ◌/◌, ◌%◌, ◌^◌, ◌≤◌, ◌<◌, ◌≡◌, refl, ◌⊎◌, inl, inr, true, ◌||◌,
  Option, none, some, List, [], ◌∷◌, leb, ◌==◌, length, get_elem?, all_below, all_below_sound,
  arith,
}
use m68k_system.Net.Ports.{PortBitmaps, byte_nr, bitmap_for, ipv4_port_free}

get_elem?-beyond : (xs : List ℕ) (i : ℕ) → length xs ≤ i → get_elem? xs i ≡ none
get_elem?-beyond [] i l = refl
get_elem?-beyond (x ∷ xs) zero l = absurd (omega arith)
get_elem?-beyond (x ∷ xs) (suc i) l = get_elem?-beyond xs i (omega arith)

squares : all_below 16 (λ k. k == 0 || leb (k * k + 15) (16 * k)) ≡ true
unfolding all_below
squares = refl

le_of_or : (k a b : ℕ) → 0 < k → (k == 0 || leb a b) ≡ true → a ≤ b
le_of_or k a b pos h = ground arith

square_below : (k : ℕ) → 0 < k → k < 16 → k * k + 15 ≤ 16 * k
square_below k pos l =
    let h = all_below_sound 16 (λ k. k == 0 || leb (k * k + 15) (16 * k)) k squares l in
    le_of_or k (k * k + 15) (16 * k) pos h

byte_nr_outside : (port : ℕ) → 520 ≤ port → port < 8192 → 64 ≤ byte_nr port
unfolding byte_nr
byte_nr_outside port low high =
    let k = port / 512 in
    let none_before : port / 8192 ≡ 0 = omega arith in
    let here : (k + 2 ^ 16 - 0) % 2 ^ 16 ≡ k = omega arith in
    let below = square_below k (omega arith) (omega arith) in
    rw (none_before, here) (omega (arith, below))

found_or_not : (o : Option (List ℕ)) → (o ≡ none) ⊎ ((bitmap : List ℕ) × (o ≡ some bitmap))
found_or_not none = inl refl
found_or_not (some bitmap) = inr (bitmap, refl)

-- For bitmaps of 64 bytes, as ipv4_port_alloc allocates them, and a port from 520 to 8191: ipv4_port_free looks for the
-- port's bit outside of the bitmap, or follows a pointer that is NULL.
pub ipv4_port_free_outside :
    (alloc_bitmap : PortBitmaps) (port : ℕ)
    → ((bitmap : List ℕ) → bitmap_for alloc_bitmap port ≡ some bitmap → length bitmap ≡ 64)
    → 520 ≤ port
    → port < 8192
    → ipv4_port_free alloc_bitmap port ≡ none
unfolding ipv4_port_free
ipv4_port_free_outside alloc_bitmap port sized low high =
    let outside = byte_nr_outside port low high in
    elim (found_or_not (bitmap_for alloc_bitmap port)) [
      | inl e ↦ rw e refl
      | inr found ↦
          (let (bitmap, e) = found in
            let size = sized bitmap e in
            let gone = get_elem?-beyond bitmap (byte_nr port) (omega arith) in rw (e, gone) refl)
    ]
