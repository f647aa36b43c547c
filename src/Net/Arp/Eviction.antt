-- ===== src/Net/Arp/Eviction.antt =====
-- Which entry of the ARP cache gives way to a new one.
use m68k_system.Common.{
  ℕ, zero, suc, ◌+◌, ◌≤◌, ◌<◌, ◌≡◌, ◌∙◌, refl, ap, ◌⊎◌, inl, inr, true, false, Option, none, some,
  List, [], ◌∷◌, ltb, get_elem?, Bool-cases, arith,
}
use m68k_system.Net.Arp.{
  ArpCacheItem, is_vacant, search_victim, time_t_max, arp_cache_get_entry_for_insert,
}

-- All entries of a list are live and expire at `s` or later.
AreFrom : ℕ → ℕ → List ArpCacheItem → Type 0
AreFrom now s cache =
    (k : ℕ) (q : ArpCacheItem)
    → get_elem? cache k ≡ some q
    → (is_vacant now q ≡ false) × (s ≤ q.etime)

AreFrom-cons :
    (now s : ℕ) (p : ArpCacheItem) (ps : List ArpCacheItem)
    → is_vacant now p ≡ false
    → s ≤ p.etime
    → AreFrom now s ps
    → AreFrom now s (p ∷ ps)
unfolding AreFrom
AreFrom-cons now s p ps live le rest zero q h = (let e : p ≡ q = grind arith in rw (← e) (live, le))
AreFrom-cons now s p ps live le rest (suc k) q h = rest k q h

-- How the loop can end, from entry `i` with the soonest expiry `s` so far.
data Outcome (now i s : ℕ) (best : Option ℕ) (cache : List ArpCacheItem) (result : Option ℕ)
    : Type 0 where
  vacant :
      (j : ℕ) (p : ArpCacheItem)
      → result ≡ some (i + j)
      → get_elem? cache j ≡ some p
      → is_vacant now p ≡ true
      → Outcome now i s best cache result
  sooner :
      (j : ℕ) (p : ArpCacheItem)
      → result ≡ some (i + j)
      → get_elem? cache j ≡ some p
      → p.etime < s
      → AreFrom now p.etime cache
      → Outcome now i s best cache result
  kept : result ≡ best → AreFrom now s cache → Outcome now i s best cache result

search_victim-cases :
    (now i s : ℕ) (best : Option ℕ) (cache : List ArpCacheItem)
    → Outcome now i s best cache (search_victim now i s best cache)
unfolding search_victim AreFrom
search_victim-cases now i s best [] = kept refl (λ k q h. absurd (grind arith))
search_victim-cases now i s best (p ∷ ps) =
    let sooner_ih = search_victim-cases now (suc i) p.etime (some i) ps in
    let kept_ih = search_victim-cases now (suc i) s best ps in
    elim (Bool-cases (is_vacant now p)) [
      | inl e ↦ vacant 0 p (rw e (ap some (omega arith))) refl e
      | inr e ↦ elim (Bool-cases (ltb p.etime s)) [
        | inl f ↦
            rw (e, f)
              (elim sooner_ih [
                | vacant j q h g v ↦ vacant (suc j) q (h ∙ ap some (omega arith)) g v
                | sooner j q h g l all ↦
                    sooner (suc j) q (h ∙ ap some (omega arith)) g (ground arith)
                      (AreFrom-cons now q.etime p ps e (omega arith) all)
                | kept h all ↦
                    sooner 0 p (h ∙ ap some (omega arith)) refl (ground arith)
                      (AreFrom-cons now p.etime p ps e (omega arith) all)
              ])
        | inr f ↦
            rw (e, f)
              (elim kept_ih [
                | vacant j q h g v ↦ vacant (suc j) q (h ∙ ap some (omega arith)) g v
                | sooner j q h g l all ↦
                    sooner (suc j) q (h ∙ ap some (omega arith)) g l
                      (AreFrom-cons now q.etime p ps e (ground arith) all)
                | kept h all ↦ kept h (AreFrom-cons now s p ps e (ground arith) all)
              ])
      ]
    ]

-- For any entry that expires before TIME_T_MAX: there is an entry to insert at, and it is unused or has expired, or else
-- the given entry is in use and does not expire before it.
pub arp_cache_get_entry_for_insert_soonest :
    (now : ℕ) (cache : List ArpCacheItem) (k : ℕ) (q : ArpCacheItem)
    → get_elem? cache k ≡ some q
    → q.etime < time_t_max
    → (j : ℕ) × (p : ArpCacheItem) × (arp_cache_get_entry_for_insert now (some cache) ≡ some j)
      × (get_elem? cache j ≡ some p)
      × ((is_vacant now p ≡ true) ⊎ ((is_vacant now q ≡ false) × (p.etime ≤ q.etime)))
unfolding arp_cache_get_entry_for_insert AreFrom
arp_cache_get_entry_for_insert_soonest now cache k q h l =
    elim (search_victim-cases now 0 time_t_max none cache) [
      | vacant j p e g v ↦ (j, p, e ∙ ap some (omega arith), g, inl v)
      | sooner j p e g lt all ↦ (j, p, e ∙ ap some (omega arith), g, inr (all k q h))
      | kept e all ↦ absurd (let late = (all k q h).1 in omega arith)
    ]
