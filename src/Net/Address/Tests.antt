-- ===== src/Net/Address/Tests.antt =====
-- The witnesses of Net/Address.
use m68k_system.Common.{◌≡◌, refl, true, false, some, [], ◌∷◌, arith, success}
use m68k_system.Net.Packet.{np_ipv4, np_ethernet}
use m68k_system.Net.Address.{
  Driver, ipv4_make_addr, ipv4_addr_compare, net_protocol_get_driver, net_address_compare,
  net_protocol_register_driver,
}
use m68k_system.Net.Address.Registry.{
  IsReady, net_protocol_get_driver-net_protocol_register_driver, net_address_compare-ipv4_make_addr,
}

abbrev ipv4_driver : Driver
ipv4_driver = record {
  proto = np_ipv4;
  addr_compare = ipv4_addr_compare;
  route_get_iface = λ a. (success, 7);
}

abbrev eth_driver : Driver
eth_driver = record {
  proto = np_ethernet;
  addr_compare = λ a b. false;
  route_get_iface = λ a. (success, 8);
}

ready : IsReady (eth_driver ∷ ipv4_driver ∷ [])
unfolding net_protocol_get_driver
ready = record { driver = ipv4_driver; found = refl; compares = refl }

net_protocol_get_driver-net_protocol_register_driver_example :
    (let q = net_protocol_register_driver true true ipv4_driver (eth_driver ∷ []) in
      (q.0 ≡ success) × (net_protocol_get_driver np_ipv4 q.1 ≡ some ipv4_driver))
unfolding net_protocol_get_driver
net_protocol_get_driver-net_protocol_register_driver_example =
    net_protocol_get_driver-net_protocol_register_driver np_ipv4 (eth_driver ∷ []) ipv4_driver

net_address_compare-ipv4_make_addr_example :
    net_address_compare
      (eth_driver ∷ ipv4_driver ∷ [])
      (ipv4_make_addr 3232235777 80)
      (ipv4_make_addr 3232235777 0)
    ≡ true
net_address_compare-ipv4_make_addr_example =
    net_address_compare-ipv4_make_addr (eth_driver ∷ ipv4_driver ∷ []) 3232235777 80 3232235777 0
      ready (omega arith) (omega arith)
