-- ===== src/Net/Arp/Tests.antt =====
-- The witnesses of Net/Arp, at the time 500.
use m68k_system.Common.{
  ℕ, ◌≤◌, ◌≡◌, refl, ◌⊎◌, true, false, some, List, [], ◌∷◌, arith, success, get_elem?,
}
use m68k_system.Net.Packet.{np_ipv4}
use m68k_system.Net.Address.{
  Address, Driver, na_ethernet, ipv4_make_addr, ipv4_addr_compare, net_protocol_get_driver,
  net_address_compare, net_protocol_addr_compare, net_protocol_from_address,
}
use m68k_system.Net.Address.Registry.{IsReady}
use m68k_system.Net.Arp.{
  ArpCacheItem, serves, search_cache, arp_cache_lookup, arp_cache_get_entry_for_insert,
  arp_cache_add, is_vacant,
}
use m68k_system.Net.Arp.Eviction.{arp_cache_get_entry_for_insert_soonest}
use m68k_system.Net.Arp.Add.{arp_cache_lookup-arp_cache_add, arp_cache_add_keeps_hw_addr}

abbrev ipv4_driver : Driver
ipv4_driver = record {
  proto = np_ipv4;
  addr_compare = ipv4_addr_compare;
  route_get_iface = λ a. (success, 7);
}

ready : IsReady (ipv4_driver ∷ [])
unfolding net_protocol_get_driver
ready = record { driver = ipv4_driver; found = refl; compares = refl }

abbrev mac : ℕ → Address
mac n = record { content = n; type = na_ethernet }

-- Two live entries, of which the second expires sooner.
abbrev full : List ArpCacheItem
full =
    record { iface = 7; hw_addr = mac 1; proto_addr = ipv4_make_addr 5 0; etime = 2147484548 }
    ∷ record { iface = 7; hw_addr = mac 2; proto_addr = ipv4_make_addr 6 0; etime = 2147484448 }
    ∷ []

arp_cache_get_entry_for_insert_soonest_example :
    (j : ℕ) × (p : ArpCacheItem) × (arp_cache_get_entry_for_insert 2147484148 (some full) ≡ some j)
    × (get_elem? full j ≡ some p)
    × ((is_vacant 2147484148 p ≡ true) ⊎ ((false ≡ false) × (p.etime ≤ 2147484548)))
arp_cache_get_entry_for_insert_soonest_example =
    arp_cache_get_entry_for_insert_soonest 2147484148 full 0
      (record { iface = 7; hw_addr = mac 1; proto_addr = ipv4_make_addr 5 0; etime = 2147484548 })
      refl (omega arith)

arp_cache_lookup-arp_cache_add_example :
    (j : ℕ) × (cache' : List ArpCacheItem) × (arp_cache_get_entry_for_insert 2147484148 (some full)
      ≡ some j)
    × (arp_cache_add (ipv4_driver ∷ []) 2147484148 7 (mac 3) (ipv4_make_addr 8 0) (some full)
        ≡ (success, some cache'))
    × (arp_cache_lookup (ipv4_driver ∷ []) 2147485248 7 (ipv4_make_addr 8 0) (some cache') ≡ some j)
    × (get_elem? cache' j
        ≡ some (record {
          iface = 7;
          hw_addr = mac 3;
          proto_addr = ipv4_make_addr 8 0;
          etime = 2147485348;
        }))
    × ((j ≡ 0) ⊎ (get_elem? cache' 0 ≡ get_elem? full 0))
unfolding arp_cache_lookup search_cache serves net_address_compare net_protocol_addr_compare
    net_protocol_from_address net_protocol_get_driver
arp_cache_lookup-arp_cache_add_example =
    arp_cache_lookup-arp_cache_add (ipv4_driver ∷ []) 2147484148 2147485248 7 8 0 (mac 3) full 0 0
      (record { iface = 7; hw_addr = mac 1; proto_addr = ipv4_make_addr 5 0; etime = 2147484548 })
      ready (omega arith) (omega arith) refl (omega arith) (omega arith) (omega arith) refl

arp_cache_add_keeps_hw_addr_example :
    (p : ArpCacheItem) × (cache' : List ArpCacheItem) × (get_elem? full 1 ≡ some p)
    × (arp_cache_add (ipv4_driver ∷ []) 2147484148 7 (mac 3) (ipv4_make_addr 6 0) (some full)
        ≡ (success, some cache'))
    × (arp_cache_lookup (ipv4_driver ∷ []) 2147485248 7 (ipv4_make_addr 6 0) (some cache') ≡ some 1)
    × (get_elem? cache' 1 ≡ some (record p { etime = 2147485348 }))
unfolding arp_cache_lookup search_cache serves net_address_compare net_protocol_addr_compare
    net_protocol_from_address net_protocol_get_driver
arp_cache_add_keeps_hw_addr_example =
    arp_cache_add_keeps_hw_addr (ipv4_driver ∷ []) 2147484148 2147485248 7 (ipv4_make_addr 6 0)
      (mac 3) full 1 (omega arith) (omega arith) (omega arith) refl
