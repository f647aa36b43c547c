-- ===== src/Net/Address/Registry.antt =====
-- How the drivers that are registered decide whether two addresses are the same.
use m68k_system.Common.{
  ℕ, ◌+◌, ◌*◌, ◌/◌, ◌^◌, ◌<◌, ◌≡◌, ◌∙◌, refl, inl, inr, true, none, some, List, [], ◌∷◌, ◌++◌, ◌==◌,
  if◌then◌else◌, Bool-cases, arith, success,
}
use m68k_system.Net.Packet.{np_ipv4, Protocol}
use m68k_system.Net.Address.{
  Address, number, Driver, net_protocol_register_driver, net_protocol_get_driver,
  net_protocol_addr_compare, net_protocol_from_address, net_address_compare, ipv4_make_addr,
  ipv4_addr_compare,
}

net_protocol_get_driver-append :
    (proto : Protocol) (ds : List Driver) (d : Driver)
    → net_protocol_get_driver proto (ds ++ d ∷ []) ≡ (elim (net_protocol_get_driver proto ds) [
      | some e ↦ some e
      | none ↦ (if number d.proto == number proto then some d else none)
    ])
unfolding net_protocol_get_driver
net_protocol_get_driver-append proto [] d = refl
net_protocol_get_driver-append proto (e ∷ ds) d =
    let ih = net_protocol_get_driver-append proto ds d in
    elim (Bool-cases (number e.proto == number proto)) [
      | inl same ↦ rw same refl
      | inr other ↦ rw other ih
    ]

-- When the memory for a driver and its name is given: the registration succeeds, and a protocol is then handled
-- by the driver it had before, and by the new one when it had none and the new one is for it.
pub net_protocol_get_driver-net_protocol_register_driver :
    (proto : Protocol) (ds : List Driver) (d : Driver)
    → (let q = net_protocol_register_driver true true d ds in
        (q.0 ≡ success)
        × (net_protocol_get_driver proto q.1 ≡ (elim (net_protocol_get_driver proto ds) [
          | some e ↦ some e
          | none ↦ (if number d.proto == number proto then some d else none)
        ])))
unfolding net_protocol_register_driver
net_protocol_get_driver-net_protocol_register_driver proto ds d =
    (refl, net_protocol_get_driver-append proto ds d)

-- The driver of IPv4 compares as ipv4_addr_compare does.
pub record IsReady (ds : List Driver) : Type 0 where
  pub driver : Driver
  pub found : net_protocol_get_driver np_ipv4 ds ≡ some driver
  pub compares : driver.addr_compare ≡ ipv4_addr_compare

net_protocol_addr_compare-found :
    (ds : List Driver) (d : Driver) (a b : Address)
    → net_protocol_get_driver np_ipv4 ds ≡ some d
    → net_protocol_addr_compare ds np_ipv4 a b ≡ d.addr_compare a b
unfolding net_protocol_addr_compare
net_protocol_addr_compare-found ds d a b h = rw (h, net_protocol_addr_compare) refl

-- With a driver for IPv4 that compares as ipv4_addr_compare does, two IPv4 addresses with ports below 2 ^ 16 are the same
-- exactly when their IP addresses are equal, whatever their ports are.
pub net_address_compare-ipv4_make_addr :
    (ds : List Driver) (ip1 port1 ip2 port2 : ℕ)
    → IsReady ds
    → port1 < 2 ^ 16
    → port2 < 2 ^ 16
    → net_address_compare ds (ipv4_make_addr ip1 port1) (ipv4_make_addr ip2 port2) ≡ (ip1 == ip2)
unfolding net_address_compare net_protocol_from_address
net_address_compare-ipv4_make_addr ds ip1 port1 ip2 port2 r l1 l2 =
    let e1 : (ip1 * 2 ^ 16 + port1) / 2 ^ 16 ≡ ip1 = omega arith in
    let e2 : (ip2 * 2 ^ 16 + port2) / 2 ^ 16 ≡ ip2 = omega arith in
    let a1 = ipv4_make_addr ip1 port1 in
    let a2 = ipv4_make_addr ip2 port2 in
    net_protocol_addr_compare-found ds r.driver a1 a2 r.found ∙ rw (r.compares, e1, e2) refl
