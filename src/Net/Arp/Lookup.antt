-- ===== src/Net/Arp/Lookup.antt =====
-- What a lookup in the ARP cache finds.
use m68k_system.Common.{
  ℕ, zero, suc, ◌≤◌, ◌<◌, ◌≡◌, ◌∙◌, sym, ap, refl, ◌⊎◌, inl, inr, true, false, none, some, List, [],
  ◌∷◌, ltb, ◌==◌, length, set, get_elem?, map_none, none-some, map_some, Bool-cases, arith,
}
use m68k_system.Net.Address.{Address, Driver, net_address_compare}
use m68k_system.Net.Arp.{ArpCacheItem, serves, search_cache, set_etime}

module _ (drivers : List Driver) (iface : ℕ) (proto_addr : Address) where
  -- An entry that does not serve now does not serve later.
  pub serves_later :
      (now now' : ℕ) (p : ArpCacheItem)
      → now ≤ now'
      → serves drivers now iface proto_addr p ≡ false
      → serves drivers now' iface proto_addr p ≡ false
  unfolding serves
  serves_later now now' p le h =
      let same = net_address_compare drivers proto_addr p.proto_addr in
      let late : ltb now p.etime ≡ false → ltb now' p.etime ≡ false = λ e. ground arith in
      elim (Bool-cases (p.iface == iface)) [
        | inr e ↦ rw e refl
        | inl e ↦ elim (Bool-cases same) [
          | inr f ↦ rw (e, f) refl
          | inl f ↦ rw (e, f) (late (rw (e, f) at h))
        ]
      ]

  pub search_cache_hit :
      (now : ℕ) (p : ArpCacheItem) (ps : List ArpCacheItem)
      → serves drivers now iface proto_addr p ≡ true
      → search_cache drivers now iface proto_addr (p ∷ ps) ≡ some 0
  unfolding search_cache
  search_cache_hit now p ps h = rw h refl

  pub search_cache_skip :
      (now : ℕ) (p : ArpCacheItem) (ps : List ArpCacheItem)
      → serves drivers now iface proto_addr p ≡ false
      → search_cache drivers now iface proto_addr (p ∷ ps)
        ≡ (elim (search_cache drivers now iface proto_addr ps) [
          | none ↦ none
          | some i ↦ some (suc i)
        ])
  unfolding search_cache
  search_cache_skip now p ps h = rw h refl

  -- A miss at the front of the cache.
  pub search_cache-none :
      (now : ℕ) (p : ArpCacheItem) (ps : List ArpCacheItem)
      → search_cache drivers now iface proto_addr (p ∷ ps) ≡ none
      → (serves drivers now iface proto_addr p ≡ false)
        × (search_cache drivers now iface proto_addr ps ≡ none)
  search_cache-none now p ps h = elim (Bool-cases (serves drivers now iface proto_addr p)) [
    | inl e ↦ absurd (none-some 0 (sym h ∙ search_cache_hit now p ps e))
    | inr e ↦ (
      e,
      map_none (search_cache drivers now iface proto_addr ps)
          (sym (search_cache_skip now p ps e) ∙ h),
    )
  ]

  pub search_cache-later :
      (now now' : ℕ) (cache : List ArpCacheItem)
      → now ≤ now'
      → search_cache drivers now iface proto_addr cache ≡ none
      → search_cache drivers now' iface proto_addr cache ≡ none
  unfolding search_cache
  search_cache-later now now' [] le h = refl
  search_cache-later now now' (p ∷ ps) le h =
      let (miss, rest) = search_cache-none now p ps h in
      search_cache_skip now' p ps (serves_later now now' p le miss)
      ∙ rw (search_cache-later now now' ps le rest) refl

  -- After a miss, an entry that serves is found where it is written.
  pub search_cache-set :
      (now now' : ℕ) (cache : List ArpCacheItem) (i : ℕ) (item : ArpCacheItem)
      → now ≤ now'
      → search_cache drivers now iface proto_addr cache ≡ none
      → i < length cache
      → serves drivers now' iface proto_addr item ≡ true
      → search_cache drivers now' iface proto_addr (set cache i item) ≡ some i
  search_cache-set now now' [] i item le h l good = elim l [ ]
  search_cache-set now now' (p ∷ ps) zero item le h l good = search_cache_hit now' item ps good
  search_cache-set now now' (p ∷ ps) (suc i) item le h l good =
      let (miss, rest) = search_cache-none now p ps h in
      search_cache_skip now' p (set ps i item) (serves_later now now' p le miss)
      ∙ rw (search_cache-set now now' ps i item le rest (omega arith) good) refl

  pub search_cache-some :
      (now : ℕ) (p : ArpCacheItem) (ps : List ArpCacheItem) (k : ℕ)
      → search_cache drivers now iface proto_addr (p ∷ ps) ≡ some k
      → ((k ≡ 0) × (serves drivers now iface proto_addr p ≡ true))
        ⊎ ((i : ℕ) × (k ≡ suc i)
            × (serves drivers now iface proto_addr p ≡ false)
            × (search_cache drivers now iface proto_addr ps ≡ some i))
  search_cache-some now p ps k h = elim (Bool-cases (serves drivers now iface proto_addr p)) [
    | inl e ↦ (let e' = sym (search_cache_hit now p ps e) ∙ h in inl (grind arith, e))
    | inr e ↦
        (let (i, found, shift) =
            map_some (search_cache drivers now iface proto_addr ps) k
              (sym (search_cache_skip now p ps e) ∙ h) in
          inr (i, shift, e, found))
  ]

  serves_renewed :
      (now now' : ℕ) (p : ArpCacheItem) (etime : ℕ)
      → now' < etime
      → serves drivers now iface proto_addr p ≡ true
      → serves drivers now' iface proto_addr (record p { etime = etime }) ≡ true
  unfolding serves
  serves_renewed now now' p etime lt h = ground arith

  -- After a hit, the entry is found again when its expiry has been put off.
  pub search_cache-set_etime :
      (now now' : ℕ) (cache : List ArpCacheItem) (i etime : ℕ)
      → now ≤ now'
      → now' < etime
      → search_cache drivers now iface proto_addr cache ≡ some i
      → search_cache drivers now' iface proto_addr (set_etime cache i etime) ≡ some i
  unfolding set_etime search_cache
  search_cache-set_etime now now' [] i etime le lt h = absurd (none-some i h)
  search_cache-set_etime now now' (p ∷ ps) zero etime le lt h =
      elim (search_cache-some now p ps zero h) [
        | inl hit ↦
            search_cache_hit now' (record p { etime = etime }) ps
              (serves_renewed now now' p etime lt hit.1)
        | inr miss ↦ absurd (let e = miss.1 in omega arith)
      ]
  search_cache-set_etime now now' (p ∷ ps) (suc k) etime le lt h =
      elim (search_cache-some now p ps (suc k) h) [
        | inl hit ↦ absurd (let e = hit.0 in omega arith)
        | inr miss ↦
            (let same : k ≡ miss.0 = (let e = miss.1 in omega arith) in
              let found : search_cache drivers now iface proto_addr ps ≡ some k =
                rw same (miss.3) in
              search_cache_skip now' p (set_etime ps k etime) (serves_later now now' p le miss.2)
              ∙ rw (search_cache-set_etime now now' ps k etime le lt found) refl)
      ]

  -- A hit is an entry of the interface and the address that has not expired.
  pub search_cache-serves :
      (now : ℕ) (cache : List ArpCacheItem) (i : ℕ)
      → search_cache drivers now iface proto_addr cache ≡ some i
      → (p : ArpCacheItem) × (get_elem? cache i ≡ some p)
        × (serves drivers now iface proto_addr p ≡ true)
  unfolding search_cache
  search_cache-serves now [] i h = absurd (none-some i h)
  search_cache-serves now (p ∷ ps) zero h = elim (search_cache-some now p ps zero h) [
    | inl hit ↦ (p, refl, hit.1)
    | inr miss ↦ absurd (let e = miss.1 in omega arith)
  ]
  search_cache-serves now (p ∷ ps) (suc k) h = elim (search_cache-some now p ps (suc k) h) [
    | inl hit ↦ absurd (let e = hit.0 in omega arith)
    | inr miss ↦
        (let same : k ≡ miss.0 = (let e = miss.1 in omega arith) in
          search_cache-serves now ps k (rw same (miss.3)))
  ]

pub get_elem?-set_etime :
    (cache : List ArpCacheItem) (i etime : ℕ) (p : ArpCacheItem)
    → get_elem? cache i ≡ some p
    → get_elem? (set_etime cache i etime) i ≡ some (record p { etime = etime })
unfolding set_etime
get_elem?-set_etime [] i etime p h = absurd (grind arith)
get_elem?-set_etime (q ∷ qs) zero etime p h = ap some (let e : q ≡ p = grind arith in rw e refl)
get_elem?-set_etime (q ∷ qs) (suc i) etime p h = get_elem?-set_etime qs i etime p h
