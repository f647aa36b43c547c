-- ===== src/Net/Route/Masks.antt =====
-- Which numbers are netmasks, and how long their prefixes are.
use Prim.Native.Nat.{bit_and, digits, bit_and-bitwise, min}
use m68k_system.Common.{
  ℕ, zero, suc, ◌+◌, ◌-◌, ◌*◌, ◌/◌, ◌%◌, ◌^◌, ◌≤◌, ◌<◌, ◌≡◌, ◌∙◌, sym, ap, refl, ◌⊎◌, inl, inr,
  Bool, true, false, ◌&&◌, Option, none, some, ◌==◌, Bool-cases, all_below, all_below_sound,
  eq_of_eqb, arith,
}
use m68k_system.Net.Route.{complement, ipv4_mask_valid, shifts, ipv4_mask_to_prefix_len}

-- A number and itself have its own digits in common.
digits_self : (n a : ℕ) → a ≤ n → digits (λ b. zero) min n a a ≡ a
digits_self zero a le = omega arith
digits_self (suc n) zero le = refl
digits_self (suc n) (suc a) le =
    let ih = digits_self n (suc a / 2) (omega arith) in
    let low : min (suc a % 2) (suc a % 2) ≡ suc a % 2 = omega arith in rw (ih, low) (omega arith)

-- A number of `w` digits that has none in common with the next one is below a power of 2.
digits_next :
    (w n a : ℕ)
    → a < 2 ^ w
    → a ≤ n
    → digits (λ b. zero) min n a (suc a) ≡ 0
    → (k : ℕ) × (k ≤ w) × (suc a ≡ 2 ^ k)
digits_next zero n a lt le h = (0, omega arith, omega arith)
digits_next (suc w) n zero lt le h = (0, omega arith, refl)
digits_next (suc w) zero (suc a) lt le h = absurd (omega arith)
digits_next (suc w) (suc n) (suc a) lt le h = elim (Bool-cases (suc a % 2 == 0)) [
  | inl even ↦
      (let parity : suc a % 2 ≡ 0 = eq_of_eqb (suc a % 2) 0 even in
        let up : suc (suc a) / 2 ≡ suc a / 2 = omega arith in
        let ih = digits_self n (suc a / 2) (omega arith) in
        let h' : (suc a / 2) * 2 + min (suc a % 2) (suc (suc a) % 2) ≡ 0 = (rw (up, ih) at h) in
        absurd (omega arith))
  | inr odd ↦
      (let parity : suc a % 2 ≡ 1 = ground arith in
        let up : suc (suc a) / 2 ≡ suc (suc a / 2) = omega arith in
        let h' : digits (λ b. zero) min n (suc a / 2) (suc (suc a / 2)) ≡ 0 =
          (let g = (rw up at h) in omega arith) in
        let (k, bound, e) = digits_next w n (suc a / 2) (omega arith) (omega arith) h' in
        (suc k, omega arith, omega arith))
]

-- The numbers that a prefix of `n` digits leaves.
abbrev pub mask_of : ℕ → ℕ
mask_of n = 2 ^ 32 - 2 ^ (32 - n)

-- What the code says of the netmask of a prefix.
abbrev agrees : ℕ → Bool
agrees n =
    ipv4_mask_valid (mask_of n)
    && (elim (ipv4_mask_to_prefix_len (mask_of n)) [ none ↦ false | some m ↦ m == n ])

all_agree : all_below 33 agrees ≡ true
unfolding all_below ipv4_mask_valid ipv4_mask_to_prefix_len shifts
all_agree = refl

matches_some :
    (o : Option ℕ) (n : ℕ) → elim o [ none ↦ false | some m ↦ m == n ] ≡ true → o ≡ some n
matches_some none n h = absurd (ground arith)
matches_some (some m) n h = ap some (eq_of_eqb m n h)

agrees_valid :
    (n : ℕ)
    → agrees n ≡ true
    → (ipv4_mask_valid (mask_of n) ≡ true) × (ipv4_mask_to_prefix_len (mask_of n) ≡ some n)
agrees_valid n h =
    let len = ipv4_mask_to_prefix_len (mask_of n) in
    elim (Bool-cases (ipv4_mask_valid (mask_of n))) [
      | inl e ↦ (e, matches_some len n (rw e at h))
      | inr e ↦ absurd (let h' = (rw e at h) in ground arith)
    ]

-- A netmask with a prefix of at most 32 digits is valid, and the length found is the one of the prefix.
pub ipv4_mask_to_prefix_len-mask_of :
    (n : ℕ)
    → n ≤ 32
    → (ipv4_mask_valid (mask_of n) ≡ true) × (ipv4_mask_to_prefix_len (mask_of n) ≡ some n)
ipv4_mask_to_prefix_len-mask_of n le =
    agrees_valid n (all_below_sound 33 agrees n all_agree (omega arith))

-- A number of 32 bits that is taken for a netmask is the one of a prefix, of at most 32 digits.
pub ipv4_mask_valid-mask_of :
    (mask : ℕ)
    → mask < 2 ^ 32
    → ipv4_mask_valid mask ≡ true
    → (n : ℕ) × (n ≤ 32) × (mask ≡ mask_of n)
unfolding ipv4_mask_valid
ipv4_mask_valid-mask_of mask lt h = elim (Bool-cases (mask == 0)) [
  | inl e ↦ (let none_set = eq_of_eqb mask 0 e in (0, omega arith, none_set))
  | inr e ↦
      (let x = complement mask in
        let whole : (x + 1) % 2 ^ 32 ≡ suc x = ground arith in
        let h' = (rw e at h) in
        let apart = eq_of_eqb (bit_and x ((x + 1) % 2 ^ 32)) 0 h' in
        let (k, bound, shape) =
          digits_next 32 x x (omega arith) (omega arith)
            (sym (bit_and-bitwise x (suc x)) ∙ ap (bit_and x) (sym whole) ∙ apart) in
        let back : 32 - (32 - k) ≡ k = omega arith in (32 - k, omega arith, rw back (omega arith)))
]

shifts_more :
    (fuel m cidr : ℕ)
    → (m == 0) ≡ false
    → 0 < cidr
    → cidr < 256
    → shifts (suc fuel) m cidr ≡ shifts fuel (m / 2) (cidr - 1)
unfolding shifts
shifts_more fuel m cidr e some_left small =
    let down : (cidr + 255) % 256 ≡ cidr - 1 = omega arith in rw (e, down) refl

-- The loop, where the number has at most `d` digits.
shifts_total :
    (d m cidr : ℕ)
    → m < 2 ^ d
    → d ≤ cidr
    → cidr < 256
    → (n : ℕ) × (n ≤ cidr)
      × (shifts (suc d) m cidr ≡ some n)
      × (m < 2 ^ (cidr - n))
      × (((m ≡ 0) × (n ≡ cidr)) ⊎ (2 ^ (cidr - n) ≤ 2 * m))
unfolding shifts
shifts_total zero m cidr lt le small =
    let nil : m ≡ 0 = omega arith in
    let gone : cidr - cidr ≡ 0 = omega arith in
    rw nil (cidr, omega arith, refl, rw gone (omega arith), inl (refl, refl))
shifts_total (suc d) m cidr lt le small = elim (Bool-cases (m == 0)) [
  | inl e ↦
      (let nil = eq_of_eqb m 0 e in
        let gone : cidr - cidr ≡ 0 = omega arith in
        rw nil (cidr, omega arith, refl, rw gone (omega arith), inl (refl, refl)))
  | inr e ↦
      (let (n, bound, found, below, tight) =
          shifts_total d (m / 2) (cidr - 1) (omega arith) (omega arith) (omega arith) in
        let shape : cidr - n ≡ suc (cidr - 1 - n) = omega arith in
        let some_digit : 0 < m = ground arith in
        (
          n,
          omega arith,
          shifts_more (suc d) m cidr e (omega arith) small ∙ found,
          rw shape (omega arith),
          inr (
              rw shape (elim tight [
                | inl one ↦
                    (let (z, w) = one in
                      let gone : cidr - 1 - n ≡ 0 = omega arith in rw gone (omega arith))
                | inr more ↦ omega arith
              ])),
        ))
]

-- The length of the prefix of a number of 32 bits: the loop ends, with at most 32, and what is left of the 32 bits is
-- exactly the digits of the number's complement.
pub ipv4_mask_to_prefix_len_ends :
    (mask : ℕ)
    → mask < 2 ^ 32
    → (n : ℕ) × (n ≤ 32)
      × (ipv4_mask_to_prefix_len mask ≡ some n)
      × (complement mask < 2 ^ (32 - n))
      × (((complement mask ≡ 0) × (n ≡ 32)) ⊎ (2 ^ (32 - n) ≤ 2 * complement mask))
unfolding ipv4_mask_to_prefix_len
ipv4_mask_to_prefix_len_ends mask lt =
    shifts_total 32 (complement mask) 32 (omega arith) (omega arith) (omega arith)
