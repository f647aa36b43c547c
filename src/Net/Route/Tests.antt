-- ===== src/Net/Route/Tests.antt =====
-- The witnesses of Net/Route, on a default route and a route to 10.0.0.0/8.
use m68k_system.Common.{
  ℕ, zero, suc, ◌*◌, ◌^◌, ◌-◌, ◌≤◌, ◌<◌, ◌≡◌, refl, ◌⊎◌, true, false, some, [], ◌∷◌, arith, success,
  get_elem?, pos, length,
}
use m68k_system.Net.Address.{ipv4_make_addr}
use m68k_system.Kernel.Links.Chain.{IsAbsent, AreDistinct}
use m68k_system.Net.Route.{
  complement, Route, Routes, ipv4_mask_valid, ipv4_mask_to_prefix_len, shifts, leads_to,
  ipv4_route_get, is_negative,
}
use m68k_system.Net.Route.Items.{
  RouteItem, RouteTable, put, routes_from, routes_read, find_place, link, fill, ipv4_route_add,
  ipv4_route_delete,
}
use m68k_system.Net.Route.Paths.{IsSegment}
use m68k_system.Net.Route.Reuse.{ipv4_route_add-ipv4_route_delete}
use m68k_system.Net.Route.Masks.{
  mask_of, ipv4_mask_to_prefix_len-mask_of, ipv4_mask_valid-mask_of, ipv4_mask_to_prefix_len_ends,
}
use m68k_system.Net.Route.Choice.{exceeds}
use m68k_system.Net.Route.Lookup.{first_leading, ipv4_route_get_chooses, ipv4_route_get_first}
use m68k_system.Net.Route.Entries.{IsRouting}
use m68k_system.Net.Route.Table.{Reached, empty, add, Reached-IsRouting}

abbrev to_all : Route
to_all = record {
  iface = 7;
  dest = 0;
  mask = 0;
  gateway = 0;
  metric = pos 0;
  flags = 1;
  prefix_len = pos 0;
}

abbrev to_ten : Route
to_ten = record {
  iface = 8;
  dest = 167772160;
  mask = 4278190080;
  gateway = 0;
  metric = pos 0;
  flags = 1;
  prefix_len = pos 8;
}

abbrev to_home : Route
to_home = record {
  iface = 9;
  dest = 3232235520;
  mask = 4294901760;
  gateway = 0;
  metric = pos 0;
  flags = 1;
  prefix_len = pos 16;
}

abbrev no_table : RouteTable
no_table = record {
  items = λ a. record { r = to_all; next = 0 };
  g_ipv4_routes = 0;
  ipv4_default_route = 0;
}

-- The default route at 16 and the other route at 32.
abbrev first_table : RouteTable
first_table = fill 16 to_all 0 (link 0 16 no_table)

abbrev both : RouteTable
both = fill 32 to_ten 8 (link 16 32 first_table)

abbrev both_routes : Routes
both_routes = record { table = to_all ∷ to_ten ∷ []; default_route = some to_all }

reached : Reached both (16 ∷ 32 ∷ [])
unfolding ipv4_route_add find_place ipv4_mask_valid ipv4_mask_to_prefix_len shifts link fill
    IsAbsent
reached =
    add {t = first_table} {t' = both} {xs = 16 ∷ []} 3 32 to_ten
      (add {t = no_table} {t' = first_table} {xs = []} 3 16 to_all (empty no_table.items)
        (omega arith) (omega arith) tt refl)
      (omega arith) (omega arith) ((λ e. omega arith), tt) refl

Reached-IsRouting_example :
    (routes : Routes) × (routes_read 3 both ≡ some routes)
    × (length routes.table ≡ 2)
    × IsRouting routes
Reached-IsRouting_example = Reached-IsRouting both (16 ∷ 32 ∷ []) 3 reached (omega arith)

ipv4_mask_to_prefix_len-mask_of_example :
    (ipv4_mask_valid 4294967040 ≡ true) × (ipv4_mask_to_prefix_len 4294967040 ≡ some 24)
ipv4_mask_to_prefix_len-mask_of_example = ipv4_mask_to_prefix_len-mask_of 24 (omega arith)

ipv4_mask_valid-mask_of_example : (n : ℕ) × (n ≤ 32) × (4294967040 ≡ mask_of n)
unfolding ipv4_mask_valid
ipv4_mask_valid-mask_of_example = ipv4_mask_valid-mask_of 4294967040 (omega arith) refl

ipv4_mask_to_prefix_len_ends_example :
    (n : ℕ) × (n ≤ 32)
    × (ipv4_mask_to_prefix_len 4294967295 ≡ some n)
    × (complement 4294967295 < 2 ^ (32 - n))
    × (((complement 4294967295 ≡ 0) × (n ≡ 32)) ⊎ (2 ^ (32 - n) ≤ 2 * complement 4294967295))
ipv4_mask_to_prefix_len_ends_example = ipv4_mask_to_prefix_len_ends 4294967295 (omega arith)

ipv4_route_get_chooses_example :
    (i : ℕ) × (r : Route) × (ipv4_route_get (ipv4_make_addr 167772161 0) both_routes ≡ some r)
    × (get_elem? both_routes.table i ≡ some r)
    × (leads_to 167772161 r ≡ true)
    × (exceeds r.prefix_len r.metric to_ten ≡ false)
unfolding leads_to routes_read routes_from link fill
ipv4_route_get_chooses_example =
    ipv4_route_get_chooses both (16 ∷ 32 ∷ []) 3 both_routes 167772161 0 1 to_ten reached
      (omega arith) refl (omega arith) refl refl

same_metric :
    (i : ℕ) (r : Route)
    → get_elem? both_routes.table i ≡ some r
    → (r.metric ≡ pos 0) × (is_negative r.prefix_len ≡ false)
same_metric zero r h = let e : to_all ≡ r = grind arith in rw (← e) (refl, refl)
same_metric (suc zero) r h = let e : to_ten ≡ r = grind arith in rw (← e) (refl, refl)
same_metric (suc (suc i)) r h = absurd (grind arith)

-- The default route serves the address, though the route to 10.0.0.0/8 leads to it as well.
ipv4_route_get_first_example : ipv4_route_get (ipv4_make_addr 167772161 0) both_routes ≡ some to_all
unfolding first_leading leads_to
ipv4_route_get_first_example =
    ipv4_route_get_first both_routes 167772161 0 0 (omega arith) same_metric

-- Three routes, of which the second is deleted, and another one that is added then.
abbrev three_items : ℕ → RouteItem
three_items =
    put
      (put (put (λ a. record { r = to_all; next = 0 }) 16 (record { r = to_all; next = 32 })) 32
        (record { r = to_ten; next = 48 }))
      48 (record { r = to_home; next = 0 })

abbrev three : RouteTable
three = record { items = three_items; g_ipv4_routes = 16; ipv4_default_route = 16 }

abbrev to_host : Route
to_host = record to_home { dest = 2886729729; mask = 4294967295 }

ipv4_route_add-ipv4_route_delete_example :
    (t1 : RouteTable) × (t2 : RouteTable) × (n : ℕ) × (ipv4_route_delete 4 to_ten three
      ≡ some (success, t1, 32))
    × (routes_from 4 t1.items t1.g_ipv4_routes ≡ some (to_all ∷ to_ten ∷ to_home ∷ []))
    × (ipv4_mask_to_prefix_len to_host.mask ≡ some n)
    × (ipv4_route_add 4 32 to_host t1 ≡ some (success, t2))
    × (routes_from 4 t2.items t2.g_ipv4_routes
        ≡ some (to_all ∷ record to_host { prefix_len = pos n } ∷ []))
unfolding ipv4_mask_valid IsSegment AreDistinct IsAbsent
ipv4_route_add-ipv4_route_delete_example =
    ipv4_route_add-ipv4_route_delete 4 16 32 [] (48 ∷ []) to_ten to_host three (omega arith)
      (refl, (λ e. omega arith), (refl, (λ e. omega arith), (refl, (λ e. omega arith), refl)))
      (((λ e. omega arith), ((λ e. omega arith), tt)), (((λ e. omega arith), tt), (tt, tt))) refl
      refl refl (omega arith) refl refl
