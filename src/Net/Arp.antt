-- ===== src/Net/Arp.antt =====
-- The ARP cache, ayumos/kernel/net/arp.c: a list of entries, `none` while the cache is disabled. A pointer to an
-- entry is its index, an interface is its address, 0 for NULL. A time, a signed number of
-- 32 bits, is kept as the number 2 ^ 31 above it: that keeps the order, and the overflow is the one of 32 bits.
mod Lookup
mod Eviction
mod Add
mod Tests
use m68k_system.Common.{
  ℕ, zero, suc, ◌+◌, ◌-◌, ◌%◌, ◌^◌, Bool, not, ◌&&◌, ◌||◌, Option, none, some, List, [], ◌∷◌, ltb,
  leb, ◌==◌, if◌then◌else◌, set, Code, success,
}
use m68k_system.Net.Address.{Address, Driver, net_address_compare}

-- ARP_CACHE_SIZE, ARP_CACHE_ITEM_LIFETIME, TIME_T_MAX
abbrev pub arp_cache_size : ℕ
arp_cache_size = 16

abbrev pub arp_cache_item_lifetime : ℕ
arp_cache_item_lifetime = 1200

abbrev pub time_t_max : ℕ
time_t_max = 2 ^ 32 - 1

-- `arp_cache_item_t`
pub record ArpCacheItem : Type 0 where
  pub iface : ℕ
  pub hw_addr : Address
  pub proto_addr : Address
  pub etime : ℕ

-- The test of arp_cache_lookup on an entry.
pub serves : List Driver → ℕ → ℕ → Address → ArpCacheItem → Bool
serves drivers now iface proto_addr p =
    p.iface == iface && net_address_compare drivers proto_addr p.proto_addr && ltb now p.etime

-- The loop of arp_cache_lookup.
pub search_cache : List Driver → ℕ → ℕ → Address → List ArpCacheItem → Option ℕ
search_cache drivers now iface proto_addr [] = none
search_cache drivers now iface proto_addr (p ∷ ps) =
    let rest = search_cache drivers now iface proto_addr ps in
    if serves drivers now iface proto_addr p
    then some 0
    else elim rest [ none ↦ none | some i ↦ some (suc i) ]

-- arp_cache_lookup
pub arp_cache_lookup : List Driver → ℕ → ℕ → Address → Option (List ArpCacheItem) → Option ℕ
arp_cache_lookup drivers now iface proto_addr none = none
arp_cache_lookup drivers now iface proto_addr (some cache) =
    search_cache drivers now iface proto_addr cache

-- The test for an entry that is unused or has expired.
abbrev pub is_vacant : ℕ → ArpCacheItem → Bool
is_vacant now p = leb p.etime now || p.iface == 0

-- The loop of arp_cache_get_entry_for_insert, at entry `i`, with the soonest expiry and its entry.
pub search_victim : ℕ → ℕ → ℕ → Option ℕ → List ArpCacheItem → Option ℕ
search_victim now i shortest_expiry expiring_soonest [] = expiring_soonest
search_victim now i shortest_expiry expiring_soonest (p ∷ ps) =
    let sooner = search_victim now (suc i) p.etime (some i) ps in
    let later = search_victim now (suc i) shortest_expiry expiring_soonest ps in
    if is_vacant now p then some i else if ltb p.etime shortest_expiry then sooner else later

-- arp_cache_get_entry_for_insert
pub arp_cache_get_entry_for_insert : ℕ → Option (List ArpCacheItem) → Option ℕ
arp_cache_get_entry_for_insert now none = none
arp_cache_get_entry_for_insert now (some cache) = search_victim now 0 time_t_max none cache

-- The write of an expiry time into an entry.
pub set_etime : List ArpCacheItem → ℕ → ℕ → List ArpCacheItem
set_etime [] i etime = []
set_etime (p ∷ ps) zero etime = record p { etime = etime } ∷ ps
set_etime (p ∷ ps) (suc i) etime = p ∷ set_etime ps i etime

-- arp_cache_add, for a cache that is enabled.
pub add_item : List Driver → ℕ → ℕ → Address → Address → List ArpCacheItem → List ArpCacheItem
unfolding search_cache search_victim set_etime
add_item drivers now iface hw_addr proto_addr cache =
    let etime = (now + arp_cache_item_lifetime) % 2 ^ 32 in
    let item : ArpCacheItem = record {
      iface = iface;
      hw_addr = hw_addr;
      proto_addr = proto_addr;
      etime = etime;
    } in
    elim (search_cache drivers now iface proto_addr cache) [
      | some i ↦ set_etime cache i etime
      | none ↦ elim (search_victim now 0 time_t_max none cache) [
        | none ↦ cache
        | some i ↦ set cache i item
      ]
    ]

-- arp_cache_add
pub arp_cache_add :
    List Driver
    → ℕ
    → ℕ
    → Address
    → Address
    → Option (List ArpCacheItem)
    → Code × Option (List ArpCacheItem)
unfolding add_item
arp_cache_add drivers now iface hw_addr proto_addr none = (success, none)
arp_cache_add drivers now iface hw_addr proto_addr (some cache) =
    (success, some (add_item drivers now iface hw_addr proto_addr cache))

-- arp_cache_get_item
pub arp_cache_get_item : ℕ → Option (List ArpCacheItem) → Option ℕ
arp_cache_get_item n none = none
arp_cache_get_item n (some cache) = if leb arp_cache_size n then none else some n
