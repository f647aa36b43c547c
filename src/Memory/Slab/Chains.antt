-- ===== src/Memory/Slab/Chains.antt =====
-- Objects of the slabs in the chains.
use m68k_system.Common.{
  ℕ, zero, suc, map_none, ◌+◌, ◌-◌, ◌%◌, ◌^◌, ◌≤◌, ◌<◌, ◌≡◌, ◌∙◌, sym, refl, ap, ◌⊎◌, inl, inr,
  true, Option, none, some, List, [], ◌∷◌, ◌==◌, get_elem?, set, get_elem?-set_cases,
  get_elem?-set_self, length-get_elem?, map_some, Bool-cases, eq_of_eqb, arith,
}
use m68k_system.Memory.Slab.{
  Slab, Slabs, take_object, bitmap_len_bytes, header_size, slab_take, with_chain, find_room,
  alloc_at,
}
use m68k_system.Memory.Slab.Alloc.{IsSlab, slab_release-slab_take}

-- Every slab in a chain is one, of the chain's radix, and the memory left begins at a multiple of 1024.
pub record IsAllocator (st : Slabs) : Type 0 where
  pub chained :
      (radix i : ℕ) (s : Slab)
      → get_elem? (st.chains radix) i ≡ some s
      → IsSlab s × (s.radix ≡ radix)
  pub aligned : st.next % 1024 ≡ 0
  pub space : st.end < 2 ^ 32

-- An object of a radix in a slab of a chain.
pub record IsObject (st : Slabs) (radix p : ℕ) : Type 0 where
  pub slab : Slab
  pub index : ℕ
  pub member : get_elem? (st.chains radix) index ≡ some slab
  pub after : slab.addr + header_size + bitmap_len_bytes radix ≤ p
  pub before : p + 2 ^ radix ≤ slab.addr + 1024

eqb_self : (n : ℕ) → (n == n) ≡ true
eqb_self n = ground arith

pub with_chain-same :
    (st : Slabs) (radix : ℕ) (chain : List Slab) → (with_chain st radix chain).chains radix ≡ chain
with_chain-same st radix chain = rw (eqb_self radix) refl

pub with_chain-IsAllocator :
    (st : Slabs) (radix : ℕ) (chain : List Slab)
    → IsAllocator st
    → ((i : ℕ) (s : Slab) → get_elem? chain i ≡ some s → IsSlab s × (s.radix ≡ radix))
    → IsAllocator (with_chain st radix chain)
with_chain-IsAllocator st radix chain good all = record {
  chained = (λ x i s h. elim (Bool-cases (x == radix)) [
    | inl e ↦
        (let same = eq_of_eqb x radix e in let (a, b) = all i s (rw e at h) in (a, b ∙ sym same))
    | inr e ↦ good.chained x i s (rw e at h)
  ]);
  aligned = good.aligned;
  space = good.space;
}

alloc_at_taken :
    (st : Slabs) (radix i p : ℕ) (s s' : Slab)
    → get_elem? (st.chains radix) i ≡ some s
    → slab_take s ≡ some (p, s')
    → alloc_at st radix i ≡ some (p, with_chain st radix (set (st.chains radix) i s'))
unfolding alloc_at
alloc_at_taken st radix i p s s' h g = rw (h, g, alloc_at) refl

slab_take_keeps :
    (s s' : Slab) (p : ℕ) (o : Option (ℕ × List ℕ))
    → take_object s.bitmap ≡ o
    → slab_take s ≡ some (p, s')
    → (s'.addr ≡ s.addr) × (s'.radix ≡ s.radix)
unfolding slab_take
slab_take_keeps s s' p none e h = absurd (let h' = (rw (e, slab_take) at h) in grind arith)
slab_take_keeps s s' p (some r) e h =
    let h' = (rw (e, slab_take) at h) in
    let after : Slab = record s { free = s.free - 1; bitmap = r.1 } in
    let same : after ≡ s' = grind arith in
    (sym (ap (λ (x : Slab). x.addr) same), sym (ap (λ (x : Slab). x.radix) same))

-- No slab of a chain has a free object, and there is no memory for another slab.
pub record IsExhausted (st : Slabs) (radix : ℕ) : Type 0 where
  pub full : (i : ℕ) (s : Slab) → get_elem? (st.chains radix) i ≡ some s → s.free ≡ 0
  pub spent : st.end ≤ st.next

-- What slab_alloc gives for a radix from a good state.
pub record IsGiven (st : Slabs) (radix : ℕ) (result : Option (ℕ × Slabs)) : Type 0 where
  pub pointer : ℕ
  pub state : Slabs
  pub returned : result ≡ some (pointer, state)
  pub kept : IsAllocator state
  pub placed : ((pointer ≡ 0) × IsExhausted st radix) ⊎ IsObject state radix pointer

pub alloc_at-IsGiven :
    (before st : Slabs) (radix i : ℕ) (s : Slab)
    → IsAllocator st
    → get_elem? (st.chains radix) i ≡ some s
    → 0 < s.free
    → IsGiven before radix (alloc_at st radix i)
alloc_at-IsGiven given st radix i s good member room =
    let (slab, same) = good.chained radix i s member in
    let (p, s', taken, slab', fewer, after, before, undone) = slab_release-slab_take s slab room in
    let (addr', radix') = slab_take_keeps s s' p (take_object s.bitmap) refl taken in
    let chain = set (st.chains radix) i s' in
    record {
      pointer = p;
      state = with_chain st radix chain;
      returned = alloc_at_taken st radix i p s s' member taken;
      kept = with_chain-IsAllocator st radix chain good (λ j q h.
          elim (get_elem?-set_cases (st.chains radix) i j s' q h) [
            | inl e ↦ rw (← e) (slab', radix' ∙ same)
            | inr old ↦ good.chained radix j q old
          ]);
      placed = inr (record {
        slab = s';
        index = i;
        member = rw (with_chain-same st radix chain) (
            get_elem?-set_self (st.chains radix) i s'
              (length-get_elem? (st.chains radix) i s member));
        after = rw (addr', ← same) after;
        before = rw (addr', ← same) before;
      });
    }

pub find_room_room :
    (chain : List Slab) (i : ℕ)
    → find_room chain ≡ some i
    → (s : Slab) × (get_elem? chain i ≡ some s) × (0 < s.free)
unfolding find_room
find_room_room [] i h = absurd (grind arith)
find_room_room (s ∷ ss) i h = elim (Bool-cases (s.free == 0)) [
  | inr e ↦
      (let first : 0 ≡ i = (let h' = (rw e at h) in grind arith) in
        rw (← first) (s, refl, ground arith))
  | inl e ↦
      (let (k, found, shift) = map_some (find_room ss) i (rw e at h) in
        let (q, g, room) = find_room_room ss k found in rw shift (q, g, room))
]

find_room_rest :
    (q : Slab) (qs : List Slab) (i : ℕ) (s : Slab)
    → q.free ≡ 0
    → get_elem? (q ∷ qs) i ≡ some s
    → ((j : ℕ) (r : Slab) → get_elem? qs j ≡ some r → r.free ≡ 0)
    → s.free ≡ 0
find_room_rest q qs zero s e g rest = let same : q ≡ s = grind arith in rw (← same) e
find_room_rest q qs (suc i) s e g rest = rest i s g

pub find_room-none :
    (chain : List Slab)
    → find_room chain ≡ none
    → (i : ℕ) (s : Slab) → get_elem? chain i ≡ some s
    → s.free ≡ 0
unfolding find_room
find_room-none [] h i s g = absurd (grind arith)
find_room-none (q ∷ qs) h i s g = elim (Bool-cases (q.free == 0)) [
  | inr e ↦ absurd (let h' = (rw e at h) in grind arith)
  | inl e ↦
      find_room_rest q qs i s (eq_of_eqb q.free 0 e) g
        (find_room-none qs (map_none (find_room qs) (rw e at h)))
]
