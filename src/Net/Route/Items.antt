-- ===== src/Net/Route/Items.antt =====
-- The routing table of ayumos/kernel/net/ipv4.c as it lies in memory: items that point to the next one. An address is
-- a number, 0 is NULL; what slab_alloc returns is an argument, and what is given to slab_free a result. Neither writes
-- to the items.
use m68k_system.Common.{
  ℕ, zero, suc, Bool, not, ◌&&◌, ◌||◌, Option, none, some, List, [], ◌∷◌, ◌==◌, if◌then◌else◌, pos,
  Code, success, einval, eexist, enomem, enoent,
}
use m68k_system.Net.Route.{Route, Routes, ipv4_mask_valid, ipv4_mask_to_prefix_len, is_negative}

-- `ipv4_rt_item_t`
pub record RouteItem : Type 0 where
  pub r : Route
  pub next : ℕ

-- The memory of the items, g_ipv4_routes and ipv4_default_route.
pub record RouteTable : Type 0 where
  pub items : ℕ → RouteItem
  pub g_ipv4_routes : ℕ
  pub ipv4_default_route : ℕ

-- A write of an item.
abbrev pub put : (ℕ → RouteItem) → ℕ → RouteItem → ℕ → RouteItem
put items p item q = if q == p then item else items q

-- The routes of the items from `p` on, as the loop of ipv4_route_get comes to them, on fuel.
unfoldable pub routes_from : ℕ → (ℕ → RouteItem) → ℕ → Option (List Route)
routes_from zero items p = none
routes_from (suc fuel) items p =
    let rest = routes_from fuel items (items p).next in
    if p == 0 then some [] else elim rest [ none ↦ none | some rs ↦ some ((items p).r ∷ rs) ]

-- The route at an address, none at NULL.
abbrev pub route_at : (ℕ → RouteItem) → ℕ → Option Route
route_at items p = if p == 0 then none else some ((items p).r)

-- What a lookup reads of the table.
unfoldable pub routes_read : ℕ → RouteTable → Option Routes
routes_read fuel t = elim (routes_from fuel t.items t.g_ipv4_routes) [
  | none ↦ none
  | some rs ↦ some (record { table = rs; default_route = route_at t.items t.ipv4_default_route })
]

-- The test for a duplicate in ipv4_route_add.
abbrev pub is_duplicate : Route → Route → Bool
is_duplicate r rt =
    rt.mask == r.mask && rt.dest == r.dest && (rt.gateway == r.gateway || rt.dest == 0)

-- The loop of ipv4_route_add, on fuel: `some none` for a duplicate, or else the item whose `next` is the place for the
-- new item, 0 for the place in g_ipv4_routes.
unfoldable pub find_place : ℕ → (ℕ → RouteItem) → Route → ℕ → ℕ → Option (Option ℕ)
find_place zero items r last p = none
find_place (suc fuel) items r last p =
    let rest = find_place fuel items r p (items p).next in
    if p == 0 then some (some last) else if is_duplicate r (items p).r then some none else rest

-- The write of `p` into the place that follows `last`.
unfoldable pub link : ℕ → ℕ → RouteTable → RouteTable
link zero p t = record t { g_ipv4_routes = p }
link (suc last) p t = record t {
  items = put t.items (suc last) (record (t.items (suc last)) { next = p });
}

-- The writes to a new item, and to ipv4_default_route when the route has neither gateway nor netmask.
unfoldable pub fill : ℕ → Route → ℕ → RouteTable → RouteTable
fill p r n t = record t {
  items = put t.items p (record { r = record r { prefix_len = pos n }; next = 0 });
  ipv4_default_route = (if r.gateway == 0 && r.mask == 0 then p else t.ipv4_default_route);
}

-- ipv4_route_add, where slab_alloc returns `p`; no result when a loop runs out of fuel.
unfoldable pub ipv4_route_add : ℕ → ℕ → Route → RouteTable → Option (Code × RouteTable)
ipv4_route_add fuel p r t =
    if not (ipv4_mask_valid r.mask) || is_negative r.metric
    then some (einval, t)
    else elim (find_place fuel t.items r 0 t.g_ipv4_routes) [
      | none ↦ none
      | some none ↦ some (eexist, t)
      | some (some last) ↦
          if p == 0 then some (enomem, link last p t) else elim (ipv4_mask_to_prefix_len r.mask) [
            | none ↦ none
            | some n ↦ some (success, fill p r n (link last p t))
          ]
    ]

-- The test of ipv4_route_delete.
abbrev pub is_same : Route → Route → Bool
is_same r rt = rt.dest == r.dest && rt.mask == r.mask && rt.gateway == r.gateway

-- What `prev` is in ipv4_route_delete: NULL, or the address of the variable `p`.
pub data Prev : Type 0 where
  null : Prev
  to_p : Prev

-- The writes through `prev`: the table and the variable `p` after them; no result when NULL is read.
unfoldable pub unlink : Prev → ℕ → RouteTable → Option (RouteTable × ℕ)
unlink null p t = none
unlink to_p p t =
    if not (p == 0)
    then some
        (record t { items = put t.items p (record (t.items p) { next = (t.items p).next }) }, p)
    else some (t, (t.items p).next)

-- The write to ipv4_default_route in ipv4_route_delete.
abbrev pub unset_default : Route → RouteTable → RouteTable
unset_default r t = record t {
  ipv4_default_route = (if r.gateway == 0 && r.mask == 0 then 0 else t.ipv4_default_route);
}

-- The loop of ipv4_route_delete, on fuel.
unfoldable pub delete_from : ℕ → Route → Prev → ℕ → RouteTable → Option (Code × RouteTable × ℕ)
delete_from zero r prev p t = none
delete_from (suc fuel) r prev p t =
    let rest = delete_from fuel r to_p (t.items p).next t in
    if p == 0
    then some (enoent, t, 0)
    else if is_same r (t.items p).r
    then elim (unlink prev p (unset_default r t)) [
      | none ↦ none
      | some result ↦ some (success, result.0, result.1)
    ]
    else rest

-- ipv4_route_delete: its code, the table, and what it gives to slab_free, 0 for nothing.
unfoldable pub ipv4_route_delete : ℕ → Route → RouteTable → Option (Code × RouteTable × ℕ)
ipv4_route_delete fuel r t = delete_from fuel r null t.g_ipv4_routes t

-- ipv4_route_get_entry: its code and the entry, 0 for NULL.
unfoldable pub ipv4_route_get_entry : ℕ → RouteTable → Code × ℕ
ipv4_route_get_entry e t =
    let next = if e == 0 then t.g_ipv4_routes else (t.items e).next in
    if not (next == 0) then (success, next) else (enoent, next)
