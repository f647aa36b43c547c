-- ===== src/Net/Arp/Add.antt =====
-- What an addition to the ARP cache leaves in it.
use m68k_system.Common.{
  ℕ, ◌+◌, ◌%◌, ◌^◌, ◌≤◌, ◌<◌, ◌≡◌, refl, ◌⊎◌, inl, inr, true, none, some, List, ltb, ◌==◌, set,
  get_elem?, length-get_elem?, get_elem?-set_self, get_elem?-set_ne, Bool-cases, arith, success,
}
use m68k_system.Net.Address.{Address, Driver, ipv4_make_addr}
use m68k_system.Net.Address.Registry.{IsReady, net_address_compare-ipv4_make_addr}
use m68k_system.Net.Arp.{
  ArpCacheItem, serves, search_cache, search_victim, set_etime, time_t_max,
  arp_cache_get_entry_for_insert, arp_cache_lookup, arp_cache_add, add_item,
}
use m68k_system.Net.Arp.Lookup.{
  search_cache-set, search_cache-set_etime, search_cache-serves, get_elem?-set_etime,
}
use m68k_system.Net.Arp.Eviction.{arp_cache_get_entry_for_insert_soonest}

serves_new :
    (ds : List Driver) (now' iface ip port : ℕ) (p : ArpCacheItem)
    → IsReady ds
    → port < 2 ^ 16
    → now' < p.etime
    → p.iface ≡ iface
    → p.proto_addr ≡ ipv4_make_addr ip port
    → serves ds now' iface (ipv4_make_addr ip port) p ≡ true
unfolding serves
serves_new ds now' iface ip port p r l lt e f =
    let same = net_address_compare-ipv4_make_addr ds ip port ip port r l l in
    let fresh : ltb now' p.etime ≡ true = ground arith in
    let this : (iface == iface) ≡ true = ground arith in
    let that : (ip == ip) ≡ true = ground arith in rw (e, f, same, fresh, this, that) refl

add_item_miss :
    (ds : List Driver) (now iface : ℕ) (hw a : Address) (cache : List ArpCacheItem) (j : ℕ)
    → now + 1200 < 2 ^ 32
    → search_cache ds now iface a cache ≡ none
    → arp_cache_get_entry_for_insert now (some cache) ≡ some j
    → add_item ds now iface hw a cache
      ≡ set cache j (record { iface = iface; hw_addr = hw; proto_addr = a; etime = now + 1200 })
unfolding add_item arp_cache_get_entry_for_insert
add_item_miss ds now iface hw a cache j time miss e =
    let e' : search_victim now 0 time_t_max none cache ≡ some j = e in
    let whole : (now + 1200) % 2 ^ 32 ≡ now + 1200 = omega arith in
    rw (miss, e', whole, add_item) refl

add_item_hit :
    (ds : List Driver) (now iface : ℕ) (hw a : Address) (cache : List ArpCacheItem) (i : ℕ)
    → now + 1200 < 2 ^ 32
    → search_cache ds now iface a cache ≡ some i
    → add_item ds now iface hw a cache ≡ set_etime cache i (now + 1200)
unfolding add_item
add_item_hit ds now iface hw a cache i time hit =
    let whole : (now + 1200) % 2 ^ 32 ≡ now + 1200 = omega arith in rw (hit, whole, add_item) refl

-- With a driver for IPv4 that compares as ipv4_addr_compare does, for an IPv4 address that is not in the cache, a cache with
-- an entry that expires before TIME_T_MAX, and a clock that does not overflow in the 1200 seconds that follow: the
-- addition succeeds, the address is found until those seconds are over, with the hardware address given, and no entry but
-- the one chosen for insertion has changed.
pub arp_cache_lookup-arp_cache_add :
    (ds : List Driver) (now now' iface ip port : ℕ) (hw : Address) (cache : List ArpCacheItem)
    (k m : ℕ) (q : ArpCacheItem)
    → IsReady ds
    → port < 2 ^ 16
    → now + 1200 < 2 ^ 32
    → get_elem? cache k ≡ some q
    → q.etime < time_t_max
    → now ≤ now'
    → now' < now + 1200
    → arp_cache_lookup ds now iface (ipv4_make_addr ip port) (some cache) ≡ none
    → (j : ℕ) × (cache' : List ArpCacheItem) × (arp_cache_get_entry_for_insert now (some cache)
        ≡ some j)
      × (arp_cache_add ds now iface hw (ipv4_make_addr ip port) (some cache)
          ≡ (success, some cache'))
      × (arp_cache_lookup ds now' iface (ipv4_make_addr ip port) (some cache') ≡ some j)
      × (get_elem? cache' j
          ≡ some (record {
            iface = iface;
            hw_addr = hw;
            proto_addr = ipv4_make_addr ip port;
            etime = now + 1200;
          }))
      × ((j ≡ m) ⊎ (get_elem? cache' m ≡ get_elem? cache m))
unfolding arp_cache_lookup arp_cache_add
arp_cache_lookup-arp_cache_add ds now now' iface ip port hw cache k m q r l time h lq le lt miss =
    let a = ipv4_make_addr ip port in
    let item : ArpCacheItem = record {
      iface = iface;
      hw_addr = hw;
      proto_addr = a;
      etime = now + 1200;
    } in
    let (j, p, e, g, v) = arp_cache_get_entry_for_insert_soonest now cache k q h lq in
    let inside = length-get_elem? cache j p g in
    let found =
      search_cache-set ds iface a now now' cache j item le miss inside
        (serves_new ds now' iface ip port item r l lt refl refl) in
    let others : (j ≡ m) ⊎ (get_elem? (set cache j item) m ≡ get_elem? cache m) =
      elim (Bool-cases (j == m)) [
        | inl same ↦ inl (ground arith)
        | inr other ↦ inr (get_elem?-set_ne cache j m item (λ x. ground arith))
      ] in
    (
      j,
      set cache j item,
      e,
      rw (add_item_miss ds now iface hw a cache j time miss e) refl,
      found,
      get_elem?-set_self cache j item inside,
      others,
    )

-- For an address that is in the cache and a clock that does not overflow in the 1200 seconds that follow: an addition succeeds and puts off the expiry of the entry, which is found until the
-- 1200 seconds are over and keeps the hardware address it had, whatever the one given is.
pub arp_cache_add_keeps_hw_addr :
    (ds : List Driver) (now now' iface : ℕ) (a hw : Address) (cache : List ArpCacheItem) (i : ℕ)
    → now + 1200 < 2 ^ 32
    → now ≤ now'
    → now' < now + 1200
    → arp_cache_lookup ds now iface a (some cache) ≡ some i
    → (p : ArpCacheItem) × (cache' : List ArpCacheItem) × (get_elem? cache i ≡ some p)
      × (arp_cache_add ds now iface hw a (some cache) ≡ (success, some cache'))
      × (arp_cache_lookup ds now' iface a (some cache') ≡ some i)
      × (get_elem? cache' i ≡ some (record p { etime = now + 1200 }))
unfolding arp_cache_lookup arp_cache_add
arp_cache_add_keeps_hw_addr ds now now' iface a hw cache i time le lt hit =
    let (p, g, s) = search_cache-serves ds iface a now cache i hit in
    (
      p,
      set_etime cache i (now + 1200),
      g,
      rw (add_item_hit ds now iface hw a cache i time hit) refl,
      search_cache-set_etime ds iface a now now' cache i (now + 1200) le lt hit,
      get_elem?-set_etime cache i (now + 1200) p g,
    )
