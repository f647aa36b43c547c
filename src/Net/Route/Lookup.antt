-- ===== src/Net/Route/Lookup.antt =====
-- Which route ipv4_route_get chooses.
use m68k_system.Common.{
  ℕ, suc, length, ◌+◌, ◌*◌, ◌/◌, ◌^◌, ◌<◌, ◌≡◌, ◌≢◌, ◌∙◌, refl, inl, inr, Bool, true, false, ◌&&◌,
  Option, some, List, [], ◌∷◌, if◌then◌else◌, get_elem?, Bool-cases, ℤ, pos, negsuc, arith,
}
use m68k_system.Net.Address.{ipv4_make_addr}
use m68k_system.Net.Route.{
  Route, Routes, ltb_ℤ, leads_to, search_routes, default_of, ipv4_route_get, is_negative,
}
use m68k_system.Net.Route.Items.{RouteTable, routes_read}
use m68k_system.Net.Route.Entries.{IsRouting}
use m68k_system.Net.Route.Table.{Reached, Reached-IsRouting}
use m68k_system.Net.Route.Choice.{
  chosen, exceeds, search_routes_take, search_routes_leave, IsTop, ltb_ℤ_irrefl,
  search_routes-cases, above, entry_exceeds, kept,
}

-- For an IPv4 address and what a lookup with enough fuel reads of a table that additions and refused operations have led
-- to: when a route in it leads to the address and is up, the route chosen is one in the table that does so too, and the
-- given one does not have both a longer prefix and a higher metric than it.
pub ipv4_route_get_chooses :
    (t : RouteTable) (xs : List ℕ) (fuel : ℕ) (routes : Routes) (ip port k : ℕ) (q : Route)
    → Reached t xs
    → length xs < fuel
    → routes_read fuel t ≡ some routes
    → port < 2 ^ 16
    → get_elem? routes.table k ≡ some q
    → leads_to ip q ≡ true
    → (i : ℕ) × (r : Route) × (ipv4_route_get (ipv4_make_addr ip port) routes ≡ some r)
      × (get_elem? routes.table i ≡ some r)
      × (leads_to ip r ≡ true)
      × (exceeds r.prefix_len r.metric q ≡ false)
unfolding ipv4_route_get IsTop
ipv4_route_get_chooses t xs fuel routes ip port k q reached enough read low g lead =
    let (routes', read', count, routing) = Reached-IsRouting t xs fuel reached enough in
    let same : routes' ≡ routes = grind arith in
    let good : IsRouting routes = rw (← same) routing in
    let whole : (ip * 2 ^ 16 + port) / 2 ^ 16 ≡ ip = omega arith in
    elim (search_routes-cases ip routes.table (negsuc 0) (negsuc 0) (default_of routes)) [
      | chosen i r h g' l b top ↦ (i, r, rw whole h, g', l, top k q g lead)
      | kept h top ↦ absurd (let b = top k q g lead in entry_exceeds q (good.entries k q g) b)
    ]

-- The first route that leads to an address and is up, or else the given one.
unfoldable pub first_leading : ℕ → List Route → Option Route → Option Route
first_leading a [] best = best
first_leading a (r ∷ rs) best = if leads_to a r then some r else first_leading a rs best

not_more : (a b : Bool) → b ≡ false → (a && b) ≢ true
not_more a b h g = ground arith

-- Once a route of the common metric has been chosen, no other is.
search_routes_settled :
    (a : ℕ) (rs : List Route) (p now : ℤ) (m : ℕ) (best : Option Route)
    → now ≡ pos m
    → ((i : ℕ) (r : Route)
        → get_elem? rs i ≡ some r
        → (r.metric ≡ pos m) × (is_negative r.prefix_len ≡ false))
    → search_routes a rs p now best ≡ best
search_routes_settled a rs p now m best this all = elim (search_routes-cases a rs p now best) [
  | kept h top ↦ h
  | chosen i q h g l b top ↦ absurd (
      let e = (all i q g).0 in
      not_more (ltb_ℤ p q.prefix_len) (ltb_ℤ now q.metric) (rw (e, this) (ltb_ℤ_irrefl (pos m))) b)
]

search_routes_first :
    (a : ℕ) (rs : List Route) (best : Option Route) (m : ℕ)
    → ((i : ℕ) (r : Route)
        → get_elem? rs i ≡ some r
        → (r.metric ≡ pos m) × (is_negative r.prefix_len ≡ false))
    → search_routes a rs (negsuc 0) (negsuc 0) best ≡ first_leading a rs best
unfolding search_routes first_leading
search_routes_first a [] best m all = refl
search_routes_first a (r ∷ rs) best m all =
    let (metric, length) = all 0 r refl in
    let later : (i : ℕ) (q : Route)
        → get_elem? rs i ≡ some q
        → (q.metric ≡ pos m) × (is_negative q.prefix_len ≡ false) =
      λ i q g. all (suc i) q g in
    elim (Bool-cases (leads_to a r)) [
      | inl e ↦
          (let more = above r.prefix_len r.metric length (rw metric refl) in
            let settled =
              search_routes_settled a rs r.prefix_len r.metric m (some r) metric later in
            search_routes_take a r rs (negsuc 0) (negsuc 0) best e more
            ∙ settled
            ∙ rw (e, first_leading) refl)
      | inr e ↦
          search_routes_leave a r rs (negsuc 0) (negsuc 0) best (rw e refl)
          ∙ rw e (search_routes_first a rs best m later)
    ]

-- For an IPv4 address, when all routes in the table have one metric, which is not negative, and no negative prefix
-- length: the route chosen is the first one that leads to the address and is up, whatever the lengths of the prefixes
-- are, and the default route where none does.
pub ipv4_route_get_first :
    (t : Routes) (ip port m : ℕ)
    → port < 2 ^ 16
    → ((i : ℕ) (r : Route)
        → get_elem? t.table i ≡ some r
        → (r.metric ≡ pos m) × (is_negative r.prefix_len ≡ false))
    → ipv4_route_get (ipv4_make_addr ip port) t ≡ first_leading ip t.table (default_of t)
unfolding ipv4_route_get
ipv4_route_get_first t ip port m low all =
    let whole : (ip * 2 ^ 16 + port) / 2 ^ 16 ≡ ip = omega arith in
    rw whole (search_routes_first ip t.table (default_of t) m all)
