-- ===== src/Net/Address.antt =====
-- Network addresses, ayumos/kernel/net/address.c, the registry of protocol drivers, ayumos/kernel/net/protocol.c, and
-- the addresses of ayumos/kernel/net/ipv4.c. The six bytes of an address are one number. What a driver does is
-- in the driver, as a function.
pub mod Registry
mod Tests
use m68k_system.Common.{
  ℕ, ◌+◌, ◌*◌, ◌/◌, ◌%◌, ◌^◌, Bool, true, false, not, ◌||◌, Option, none, some, List, [], ◌∷◌, ◌++◌,
  ◌==◌, if◌then◌else◌, Code, success, enomem, einval, eprotonosupport,
}
use m68k_system.Net.Packet.{
  Protocol, np_unknown, np_raw, np_ethernet, np_arp, np_ipv4, np_ipv6, np_tcp, np_udp, np_icmp,
  np_invalid,
}

-- `net_addr_type_t`
pub data AddrType : Type 0 where
  na_unknown na_ethernet na_ipv4 na_ipv6 na_invalid : AddrType

-- `net_address_t`
pub record Address : Type 0 where
  pub content : ℕ
  pub type : AddrType

-- net_address_set_type
pub net_address_set_type : AddrType → Address → Code × Address
net_address_set_type na_invalid addr = (einval, addr)
net_address_set_type type addr = (success, record addr { type = type })

-- net_address_get_proto
pub net_address_get_proto : Address → Protocol
net_address_get_proto addr = elim (addr.type) [
  | na_ethernet ↦ np_ethernet
  | na_ipv4 ↦ np_ipv4
  | na_ipv6 ↦ np_ipv6
  | other ↦ np_unknown
]

-- net_address_type_from_proto
pub net_address_type_from_proto : Protocol → AddrType
net_address_type_from_proto np_ethernet = na_ethernet
net_address_type_from_proto np_ipv4 = na_ipv4
net_address_type_from_proto np_ipv6 = na_ipv6
net_address_type_from_proto other = na_unknown

-- net_protocol_from_address
unfoldable pub net_protocol_from_address : Address → Protocol
net_protocol_from_address addr = elim (addr.type) [
  | na_ethernet ↦ np_ethernet
  | na_ipv4 ↦ np_ipv4
  | na_ipv6 ↦ np_ipv6
  | other ↦ np_unknown
]

-- The numbers of the enumerations, for tests.
abbrev pub number : Protocol → ℕ
number np_unknown = 0
number np_raw = 1
number np_ethernet = 2
number np_arp = 3
number np_ipv4 = 4
number np_ipv6 = 5
number np_tcp = 6
number np_udp = 7
number np_icmp = 8
number np_invalid = 9

abbrev pub type_number : AddrType → ℕ
type_number na_unknown = 0
type_number na_ethernet = 1
type_number na_ipv4 = 2
type_number na_ipv6 = 3
type_number na_invalid = 4

-- `net_proto_driver_t`: its protocol, its comparison of addresses, true for 0, and its routing.
pub record Driver : Type 0 where
  pub proto : Protocol
  pub addr_compare : Address → Address → Bool
  pub route_get_iface : Address → Code × ℕ

-- net_protocol_register_driver: `memory` and `named` say whether the driver and the copy of its name are allocated.
pub net_protocol_register_driver : Bool → Bool → Driver → List Driver → Code × List Driver
net_protocol_register_driver memory named driver drivers =
    if not memory
    then (enomem, drivers)
    else if not named
    then (einval, drivers)
    else (success, drivers ++ driver ∷ [])

-- net_protocol_get_driver
unfoldable pub net_protocol_get_driver : Protocol → List Driver → Option Driver
net_protocol_get_driver proto [] = none
net_protocol_get_driver proto (d ∷ ds) =
    let rest = net_protocol_get_driver proto ds in
    if number d.proto == number proto then some d else rest

-- net_protocol_addr_compare; true is 0, a match.
unfoldable pub net_protocol_addr_compare : List Driver → Protocol → Address → Address → Bool
unfolding net_protocol_get_driver
net_protocol_addr_compare drivers proto a1 a2 = elim (net_protocol_get_driver proto drivers) [
  | none ↦ false
  | some drv ↦ (if number proto == 0 then false else drv.addr_compare a1 a2)
]

-- net_address_compare
unfoldable pub net_address_compare : List Driver → Address → Address → Bool
unfolding net_protocol_addr_compare net_protocol_from_address
net_address_compare drivers a1 a2 =
    if type_number a1.type == type_number a2.type
    then net_protocol_addr_compare drivers (net_protocol_from_address a1) a1 a2
    else false

-- net_route_get_iface
pub net_route_get_iface : List Driver → Address → Code × ℕ
unfolding net_protocol_get_driver net_address_get_proto
net_route_get_iface drivers addr =
    elim (net_protocol_get_driver (net_address_get_proto addr) drivers) [
      | none ↦ (eprotonosupport, 0)
      | some drv ↦ drv.route_get_iface addr
    ]

-- ipv4_make_addr
abbrev pub ipv4_make_addr : ℕ → ℕ → Address
ipv4_make_addr ip port = record { content = ip * 2 ^ 16 + port; type = na_ipv4 }

abbrev pub is_ipv4 : Address → Bool
is_ipv4 addr = type_number addr.type == 2

-- ipv4_get_addr and ipv4_get_port
abbrev pub ipv4_get_addr : Address → ℕ
ipv4_get_addr addr = if not (is_ipv4 addr) then 0 else addr.content / 2 ^ 16

abbrev pub ipv4_get_port : Address → ℕ
ipv4_get_port addr = if not (is_ipv4 addr) then 0 else addr.content % 2 ^ 16

-- ipv4_addr_compare; true is 0, a match.
abbrev pub ipv4_addr_compare : Address → Address → Bool
ipv4_addr_compare a1 a2 =
    if not (is_ipv4 a1) || not (is_ipv4 a2)
    then false
    else a1.content / 2 ^ 16 == a2.content / 2 ^ 16
