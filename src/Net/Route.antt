-- ===== src/Net/Route.antt =====
-- Routes, ayumos/kernel/net/ipv4.c: netmasks, and lookups in the routes that a reader of the table finds, in their
-- order. The table itself is a chain of items in memory, in Items.
mod Masks
mod Items
mod Paths
mod Choice
mod Entries
mod Table
mod Lookup
mod Reuse
mod Tests
use Prim.Native.Nat.{bit_and}
use m68k_system.Common.{
  ℕ, zero, suc, ◌+◌, ◌-◌, ◌*◌, ◌/◌, ◌%◌, ◌^◌, Bool, true, false, not, ◌&&◌, ◌||◌, Option, none,
  some, List, [], ◌∷◌, ◌++◌, ltb, ◌==◌, if◌then◌else◌, get_elem?, length, ℤ, pos, negsuc, Code,
  success, einval, eexist, enomem, enoent, ehostunreach,
}
use m68k_system.Net.Address.{Address, is_ipv4, ipv4_get_addr}

-- The complement of a number of 32 bits.
abbrev pub complement : ℕ → ℕ
complement m = 2 ^ 32 - 1 - m

-- ipv4_mask_valid
pub ipv4_mask_valid : ℕ → Bool
ipv4_mask_valid mask = mask == 0 || bit_and (complement mask) ((complement mask + 1) % 2 ^ 32) == 0

-- The loop of ipv4_mask_to_prefix_len, on fuel.
pub shifts : ℕ → ℕ → ℕ → Option ℕ
shifts zero m cidr = none
shifts (suc fuel) m cidr =
    let rest = shifts fuel (m / 2) ((cidr + 255) % 256) in if m == 0 then some cidr else rest

-- ipv4_mask_to_prefix_len
pub ipv4_mask_to_prefix_len : ℕ → Option ℕ
ipv4_mask_to_prefix_len mask = shifts 33 (complement mask) 32

-- `ipv4_route_t`
pub record Route : Type 0 where
  pub iface : ℕ
  pub dest : ℕ
  pub mask : ℕ
  pub gateway : ℕ
  pub metric : ℤ
  pub flags : ℕ
  pub prefix_len : ℤ

-- What a lookup reads: the routes of the items from g_ipv4_routes on, and the one at ipv4_default_route.
pub record Routes : Type 0 where
  pub table : List Route
  pub default_route : Option Route

abbrev pub is_negative : ℤ → Bool
is_negative (pos n) = false
is_negative (negsuc n) = true

-- The order of signed numbers.
abbrev pub ltb_ℤ : ℤ → ℤ → Bool
ltb_ℤ (pos a) (pos b) = ltb a b
ltb_ℤ (pos a) (negsuc b) = false
ltb_ℤ (negsuc a) (pos b) = true
ltb_ℤ (negsuc a) (negsuc b) = ltb b a

-- The first two conditions of ipv4_route_get on a route: it leads to the address and it is up.
pub leads_to : ℕ → Route → Bool
leads_to ipv4_addr r =
    bit_and r.dest r.mask == bit_and ipv4_addr r.mask && not (bit_and r.flags 1 == 0)

-- The loop of ipv4_route_get.
pub search_routes : ℕ → List Route → ℤ → ℤ → Option Route → Option Route
search_routes ipv4_addr [] best_prefix_len best_metric best_route = best_route
search_routes ipv4_addr (r ∷ rs) best_prefix_len best_metric best_route =
    let better = search_routes ipv4_addr rs r.prefix_len r.metric (some r) in
    let same = search_routes ipv4_addr rs best_prefix_len best_metric best_route in
    if leads_to ipv4_addr r && ltb_ℤ best_prefix_len r.prefix_len && ltb_ℤ best_metric r.metric
    then better
    else same

-- The default route, where there is one.
abbrev pub default_of : Routes → Option Route
default_of t = t.default_route

-- ipv4_route_get; no result is NULL.
pub ipv4_route_get : Address → Routes → Option Route
ipv4_route_get proto_addr t =
    if not (is_ipv4 proto_addr)
    then none
    else search_routes (ipv4_get_addr proto_addr) t.table (negsuc 0) (negsuc 0) (default_of t)

-- ipv4_route_get_iface
pub ipv4_route_get_iface : Address → Routes → Code × ℕ
ipv4_route_get_iface proto_addr t = elim (ipv4_route_get proto_addr t) [
  | none ↦ (ehostunreach, 0)
  | some route ↦ (success, route.iface)
]
