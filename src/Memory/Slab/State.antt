-- ===== src/Memory/Slab/State.antt =====
-- The slab allocator as a whole: slab_alloc ends, with NULL or an object of the right size in a slab.
use m68k_system.Common.{
  ℕ, ◌+◌, ◌-◌, ◌%◌, ◌^◌, ◌≤◌, ◌<◌, ◌≡◌, ◌∙◌, refl, ◌⊎◌, inl, inr, true, false, Option, none, some,
  [], ◌∷◌, ◌++◌, ltb, leb, ◌==◌, length, get_elem?, get_elem?-append_cases, get_elem?-append_last,
  Bool-cases, le_of_leb, arith, Code, success, enomem,
}
use m68k_system.Memory.Slab.{
  Slab, Slabs, slab_init, slab_create, with_chain, alloc_new, find_room, alloc_at, alloc_in,
  slab_alloc, radix_of,
}
use m68k_system.Memory.Slab.Sizes.{radix_of_smallest}
use m68k_system.Memory.Slab.Alloc.{IsSlab}
use m68k_system.Memory.Slab.Create.{slab_create-IsSlab}
use m68k_system.Memory.Slab.Chains.{
  IsAllocator, IsObject, with_chain-same, with_chain-IsAllocator, IsGiven, alloc_at-IsGiven,
  find_room_room, find_room-none, IsExhausted,
}

alloc_in_room :
    (found : ℕ → ℕ) (radix : ℕ) (st : Slabs) (i : ℕ)
    → find_room (st.chains radix) ≡ some i
    → alloc_in found radix st ≡ alloc_at st radix i
unfolding alloc_in
alloc_in_room found radix st i h = rw (h, alloc_in) refl

alloc_in_created :
    (found : ℕ → ℕ) (radix : ℕ) (st : Slabs) (made : Code × Slabs × Option Slab)
    → find_room (st.chains radix) ≡ none
    → slab_create found radix st ≡ made
    → alloc_in found radix st ≡ alloc_new radix made
unfolding alloc_in
alloc_in_created found radix st made h g = rw (h, g, alloc_in) refl

slab_create_full :
    (found : ℕ → ℕ) (radix : ℕ) (st : Slabs)
    → 1 ≤ radix
    → radix ≤ 6
    → st.end ≤ st.next
    → slab_create found radix st ≡ (enomem, st, none)
unfolding slab_create
slab_create_full found radix st low high full =
    let small : ltb radix 1 ≡ false = ground arith in
    let large : ltb 6 radix ≡ false = ground arith in
    let left : leb st.end st.next ≡ true = ground arith in rw (small, large, left) refl

none_or_some : (o : Option ℕ) → (o ≡ none) ⊎ ((i : ℕ) × (o ≡ some i))
none_or_some none = inl refl
none_or_some (some i) = inr (i, refl)

alloc_in-IsGiven :
    (found : ℕ → ℕ) (radix : ℕ) (st : Slabs)
    → IsAllocator st
    → 1 ≤ radix
    → radix ≤ 6
    → ((a : ℕ) → st.next ≤ a → found a ≡ 0)
    → IsGiven st radix (alloc_in found radix st)
unfolding alloc_new
alloc_in-IsGiven found radix st good low high clear =
    elim (none_or_some (find_room (st.chains radix))) [
      | inr room ↦
          (let (i, h) = room in
            let (s, member, free) = find_room_room (st.chains radix) i h in
            rw (alloc_in_room found radix st i h)
              (alloc_at-IsGiven st st radix i s good member free))
      | inl h ↦ elim (Bool-cases (leb st.end st.next)) [
        | inl full ↦
            (let e =
                alloc_in_created found radix st (enomem, st, none) h
                  (slab_create_full found radix st low high (le_of_leb st.end st.next full)) in
              record {
                pointer = 0;
                state = st;
                returned = e;
                kept = good;
                placed = inl (
                  refl,
                  record {
                    full = find_room-none (st.chains radix) h;
                    spent = le_of_leb st.end st.next full;
                  },
                );
              })
        | inr left ↦
            (let (s, made, slab, addr, this_radix, free) =
                slab_create-IsSlab found radix st low high good.aligned (ground arith)
                  (λ a l u. clear a (omega arith)) in
              let chain = st.chains radix ++ s ∷ [] in
              let st' : Slabs = record st { next = (st.next + 1024) % 2 ^ 32 } in
              let space = good.space in
              let aligned = good.aligned in
              let good' : IsAllocator st' = record {
                chained = good.chained;
                aligned = omega arith;
                space = space;
              } in
              let all = λ (i : ℕ) (q : Slab) (g : get_elem? chain i ≡ some q).
                elim (get_elem?-append_cases (st.chains radix) s i q g)
                  as (λ x. IsSlab q × (q.radix ≡ radix)) [
                    | inl old ↦ good.chained radix i q old
                    | inr last ↦ rw (← last.1) (slab, this_radix)
                  ] in
              let good'' = with_chain-IsAllocator st' radix chain good' all in
              let member = with_chain-same st' radix chain in
              rw (alloc_in_created found radix st (success, st', some s) h made) (
                alloc_at-IsGiven st (with_chain st' radix chain) radix (length (st.chains radix)) s
                  good'' (rw member (get_elem?-append_last (st.chains radix) s)) free))
      ]
    ]

slab_alloc_radix :
    (found : ℕ → ℕ) (size radix : ℕ) (st : Slabs)
    → 0 < size
    → size ≤ 64
    → radix_of size ≡ some radix
    → slab_alloc found size st ≡ alloc_in found radix st
unfolding slab_alloc
slab_alloc_radix found size radix st some_size small e =
    let not_nil : (size == 0) ≡ false = ground arith in
    let fits : ltb 64 size ≡ false = ground arith in rw (not_nil, fits, e) refl

-- For a size from 1 to 64, where every chain holds slabs of its radix and the memory left for slabs begins at a multiple of
-- 1024 and is 0: the search for memory ends within the bitmaps and the chains are such again. For the smallest radix, from 1
-- on, whose objects hold the size, it gives an object that lies in a slab of its chain, behind the slab's header and
-- bitmap, or NULL where no slab of the chain has a free object and no memory is left for another.
pub slab_alloc-IsAllocator :
    (found : ℕ → ℕ) (size : ℕ) (st : Slabs)
    → IsAllocator st
    → 0 < size
    → size ≤ 64
    → ((a : ℕ) → st.next ≤ a → found a ≡ 0)
    → (radix : ℕ) × (p : ℕ) × (st' : Slabs) × (size ≤ 2 ^ radix)
      × (1 ≤ radix)
      × ((radix ≡ 1) ⊎ (2 ^ (radix - 1) < size))
      × (slab_alloc found size st ≡ some (p, st'))
      × IsAllocator st'
      × (((p ≡ 0) × IsExhausted st radix) ⊎ IsObject st' radix p)
slab_alloc-IsAllocator found size st good some_size small clear =
    let (radix, e, low, high, enough, tight) = radix_of_smallest size some_size small in
    let given = alloc_in-IsGiven found radix st good low high clear in
    (
      radix,
      given.pointer,
      given.state,
      enough,
      low,
      tight,
      slab_alloc_radix found size radix st some_size small e ∙ given.returned,
      given.kept,
      given.placed,
    )

-- Memory for slabs that begins at a multiple of 1024 makes an allocator.
pub slab_init-IsAllocator : (start len : ℕ) → start % 1024 ≡ 0 → IsAllocator (slab_init start len)
unfolding slab_init
slab_init-IsAllocator start len aligned = record {
  chained = λ radix i s h. absurd (grind arith);
  aligned = aligned;
  space = omega arith;
}
