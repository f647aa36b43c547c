-- ===== src/Net/Route/Table.antt =====
-- What the routing table always is.
use m68k_system.Common.{
  ℕ, zero, suc, ◌^◌, ◌<◌, ◌≡◌, ◌≢◌, ◌∙◌, sym, ap, refl, inl, inr, false, ◌&&◌, Option, none, some,
  List, [], ◌∷◌, ◌++◌, ◌==◌, length, Bool-cases, pos, arith, Code, success,
}
use m68k_system.Kernel.Links.Chain.{IsAbsent, AreDistinct, end_of}
use m68k_system.Net.Route.{Route, Routes}
use m68k_system.Net.Route.Items.{
  RouteItem, RouteTable, put, route_at, routes_read, link, fill, ipv4_route_add, is_same, Prev,
  null, to_p, delete_from, ipv4_route_delete, unlink, unset_default,
}
use m68k_system.Net.Route.Paths.{
  IsSegment, routes_of, put_same, put_other, IsSegment-put, routes_of-put, route_put,
  routes_of-next, IsSegment-extended, IsSegment-snoc, routes_from-IsSegment, last_next, link_item,
  routes_of-snoc,
}
use m68k_system.Net.Route.Entries.{
  IsRouting, append_route, appended, ipv4_route_add-cases, append_route-IsRouting, turned_down,
}

-- The routing tables that additions lead to, and refused additions and deletions, with the addresses of the items:
-- slab_alloc returns memory that no item in the table lies in.
pub data Reached : RouteTable → List ℕ → Type 0 where
  empty :
      (items : ℕ → RouteItem)
      → Reached (record { items = items; g_ipv4_routes = 0; ipv4_default_route = 0 }) []
  add :
      {t t' : RouteTable} {xs : List ℕ} (fuel p : ℕ) (r : Route)
      → Reached t xs
      → length xs < fuel
      → r.mask < 2 ^ 32
      → IsAbsent p xs
      → ipv4_route_add fuel p r t ≡ some (success, t')
      → Reached t' (xs ++ p ∷ [])
  refuse_add :
      {t t' : RouteTable} {xs : List ℕ} (fuel p : ℕ) (r : Route) (code : Code)
      → Reached t xs
      → length xs < fuel
      → r.mask < 2 ^ 32
      → code ≢ success
      → ipv4_route_add fuel p r t ≡ some (code, t')
      → Reached t' xs
  refuse_delete :
      {t t' : RouteTable} {xs : List ℕ} (fuel freed : ℕ) (r : Route) (code : Code)
      → Reached t xs
      → code ≢ success
      → ipv4_route_delete fuel r t ≡ some (code, t', freed)
      → Reached t' xs

-- The routes in the items, and the one at ipv4_default_route.
abbrev pub view : RouteTable → List ℕ → Routes
view t xs = record {
  table = routes_of t.items xs;
  default_route = route_at t.items t.ipv4_default_route;
}

-- A chain of different items with the routes of a table; ipv4_default_route points to one of them or is NULL.
pub record IsTable (t : RouteTable) (xs : List ℕ) : Type 0 where
  pub segment : IsSegment t.items t.g_ipv4_routes xs 0
  pub distinct : AreDistinct xs
  pub held : (p : ℕ) → p ≢ 0 → IsAbsent p xs → t.ipv4_default_route ≢ p
  pub routing : IsRouting (view t xs)

-- The table once `p` is linked behind the items.
record IsLinked (t : RouteTable) (xs : List ℕ) (p : ℕ) (t' : RouteTable) : Type 0 where
  segment : IsSegment t'.items t'.g_ipv4_routes xs p
  routes : routes_of t'.items xs ≡ routes_of t.items xs
  default : route_at t'.items t'.ipv4_default_route ≡ route_at t.items t.ipv4_default_route
  same : t'.ipv4_default_route ≡ t.ipv4_default_route

link-IsLinked :
    (t : RouteTable) (xs : List ℕ) (p : ℕ)
    → IsSegment t.items t.g_ipv4_routes xs 0
    → AreDistinct xs
    → IsLinked t xs p (link (end_of 0 xs) p t)
unfolding link IsSegment
link-IsLinked t [] p s d = record { segment = refl; routes = refl; default = refl; same = refl }
link-IsLinked t (x ∷ xs) p s d =
    let last = end_of x xs in
    let (ne, e) = last_next t.items t.g_ipv4_routes x xs 0 s in
    rw (link_item last p t ne) (record {
      segment = IsSegment-extended t.items t.g_ipv4_routes x xs 0 p d s;
      routes = routes_of-next t.items last p (x ∷ xs);
      default = rw (route_put t.items last p t.ipv4_default_route) refl;
      same = refl;
    })

IsAbsent-both : (q p : ℕ) (xs : List ℕ) → IsAbsent q (xs ++ p ∷ []) → IsAbsent q xs × (q ≢ p)
unfolding IsAbsent
IsAbsent-both q p [] h = (tt, h.0)
IsAbsent-both q p (x ∷ xs) h = let (a, b) = IsAbsent-both q p xs h.1 in ((h.0, a), b)

IsAbsent-snoc : (q p : ℕ) (xs : List ℕ) → q ≢ p → IsAbsent q xs → IsAbsent q (xs ++ p ∷ [])
unfolding IsAbsent
IsAbsent-snoc q p [] ne h = (ne, tt)
IsAbsent-snoc q p (x ∷ xs) ne h = (h.0, IsAbsent-snoc q p xs ne h.1)

distinct_snoc : (p : ℕ) (xs : List ℕ) → AreDistinct xs → IsAbsent p xs → AreDistinct (xs ++ p ∷ [])
unfolding AreDistinct IsAbsent
distinct_snoc p [] d h = (tt, tt)
distinct_snoc p (x ∷ xs) d h =
    (IsAbsent-snoc x p xs (λ e. h.0 (sym e)) d.0, distinct_snoc p xs d.1 h.1)

length-routes_of : (items : ℕ → RouteItem) (xs : List ℕ) → length (routes_of items xs) ≡ length xs
length-routes_of items [] = refl
length-routes_of items (x ∷ xs) = ap suc (length-routes_of items xs)

-- Linking and filling an item appends its route.
view-fill :
    (t t' : RouteTable) (xs : List ℕ) (p n : ℕ) (r : Route)
    → IsTable t xs
    → IsLinked t xs p t'
    → p ≢ 0
    → IsAbsent p xs
    → view (fill p r n t') (xs ++ p ∷ []) ≡ append_route n r (view t xs)
unfolding fill
view-fill t t' xs p n r good linked ne fresh =
    let new : RouteItem = record { r = record r { prefix_len = pos n }; next = 0 } in
    let after = put t'.items p new in
    let this = put_same t'.items p new in
    let some_one : (p == 0) ≡ false = ground arith in
    let table : routes_of after (xs ++ p ∷ []) ≡ routes_of t.items xs ++ new.r ∷ [] =
      routes_of-snoc after xs p
      ∙ rw (this, routes_of-put t'.items p new xs fresh, linked.routes) refl in
    let apart : t'.ipv4_default_route ≢ p = rw (linked.same) (good.held p ne fresh) in
    let old : route_at after t'.ipv4_default_route ≡ route_at t.items t.ipv4_default_route =
      rw (put_other t'.items p new t'.ipv4_default_route apart) linked.default in
    elim (Bool-cases (r.gateway == 0 && r.mask == 0)) [
      | inl e ↦ rw (table, e, some_one, this) refl
      | inr e ↦ rw (table, e, old) refl
    ]

fill-held :
    (t t' : RouteTable) (xs : List ℕ) (p n : ℕ) (r : Route) (q : ℕ)
    → IsTable t xs
    → t'.ipv4_default_route ≡ t.ipv4_default_route
    → q ≢ 0
    → IsAbsent q (xs ++ p ∷ [])
    → (fill p r n t').ipv4_default_route ≢ q
unfolding fill
fill-held t t' xs p n r q good same ne h =
    let (before, apart) = IsAbsent-both q p xs h in
    elim (Bool-cases (r.gateway == 0 && r.mask == 0)) [
      | inl e ↦ rw e (λ x. apart (sym x))
      | inr e ↦ rw (e, same) (good.held q ne before)
    ]

pub fill-IsTable :
    (t : RouteTable) (xs : List ℕ) (p n : ℕ) (r : Route)
    → IsTable t xs
    → p ≢ 0
    → IsAbsent p xs
    → IsRouting (append_route n r (view t xs))
    → IsTable (fill p r n (link (end_of 0 xs) p t)) (xs ++ p ∷ [])
unfolding fill
fill-IsTable t xs p n r good ne fresh routing =
    let t' = link (end_of 0 xs) p t in
    let linked = link-IsLinked t xs p good.segment good.distinct in
    let new : RouteItem = record { r = record r { prefix_len = pos n }; next = 0 } in
    record {
      segment =
          IsSegment-snoc (put t'.items p new) t'.g_ipv4_routes xs p 0 ne
            (ap (λ i. i.next) (put_same t'.items p new))
            (IsSegment-put t'.items p new t'.g_ipv4_routes xs p fresh linked.segment);
      distinct = distinct_snoc p xs good.distinct fresh;
      held = λ q some_one h. fill-held t t' xs p n r q good linked.same some_one h;
      routing = rw (view-fill t t' xs p n r good linked ne fresh) routing;
    }

unlinked_code :
    (o : Option (RouteTable × ℕ)) (c : Option (Code × RouteTable × ℕ)) (t : RouteTable)
    (code : Code) (freed : ℕ)
    → c ≡ some (code, t, freed)
    → elim o [ none ↦ none | some result ↦ some (success, result.0, result.1) ] ≡ c
    → success ≡ code
unlinked_code none c t code freed e h = absurd (grind arith)
unlinked_code (some result) c t code freed e h = grind arith

-- A deletion with another code leaves the table as it is.
delete_from_refused :
    (fuel : ℕ) (r : Route) (prev : Prev) (p : ℕ) (t t' : RouteTable) (code : Code) (freed : ℕ)
    → code ≢ success
    → delete_from fuel r prev p t ≡ some (code, t', freed)
    → t ≡ t'
unfolding delete_from
delete_from_refused zero r prev p t t' code freed ne h = absurd (grind arith)
delete_from_refused (suc fuel) r prev p t t' code freed ne h = elim (Bool-cases (p == 0)) [
  | inl e ↦ (let h' = (rw e at h) in grind arith)
  | inr e ↦ elim (Bool-cases (is_same r (t.items p).r)) [
    | inr f ↦ delete_from_refused fuel r to_p (t.items p).next t t' code freed ne (rw (e, f) at h)
    | inl f ↦ absurd (
        ne (
          sym (
            unlinked_code (unlink prev p (unset_default r t)) (some (code, t', freed)) t' code freed
              refl (rw (e, f) at h))))
  ]
]

Reached-IsTable : (t : RouteTable) (xs : List ℕ) → Reached t xs → IsTable t xs
unfolding IsSegment AreDistinct ipv4_route_delete
Reached-IsTable _ _ (empty items) = record {
  segment = refl;
  distinct = tt;
  held = λ p ne h e. ne (sym e);
  routing = record {
    entries = λ i r h. absurd (grind arith);
    unique = λ i j r r' l h. absurd (grind arith);
    default = λ r h. absurd (grind arith);
  };
}
Reached-IsTable t' _ (add {t} {xs = xs} fuel p r before enough lt fresh done) =
    let ih = Reached-IsTable t xs before in
    elim (ipv4_route_add-cases fuel p r t xs enough lt ih.segment) [
      | turned_down code bad e ↦ absurd (grind arith)
      | appended n e ne valid sign unlike prefix ↦
          (let same : fill p r n (link (end_of 0 xs) p t) ≡ t' = grind arith in
            let routing =
              append_route-IsRouting n r (view t xs) ih.routing valid sign unlike prefix in
            rw (← same) (fill-IsTable t xs p n r ih ne fresh routing))
    ]
Reached-IsTable t' xs (refuse_add {t} fuel p r code before enough lt bad done) =
    let ih = Reached-IsTable t xs before in
    elim (ipv4_route_add-cases fuel p r t xs enough lt ih.segment) [
      | turned_down code' bad' e ↦ (let same : t ≡ t' = grind arith in rw (← same) ih)
      | appended n e ne valid sign unlike prefix ↦ absurd (grind arith)
    ]
Reached-IsTable t' xs (refuse_delete {t} fuel freed r code before bad done) =
    let same = delete_from_refused fuel r null t.g_ipv4_routes t t' code freed bad done in
    rw (← same) (Reached-IsTable t xs before)

-- Whatever additions have been made, each with memory in which no item of the table lies, and whatever additions and
-- deletions have been refused: a lookup with enough fuel reads as many routes as there are items, every one of them has
-- a netmask, its prefix length and a metric that is not negative, none duplicates an earlier one, and the default
-- route, where there is one, is one of them, without gateway and netmask.
pub Reached-IsRouting :
    (t : RouteTable) (xs : List ℕ) (fuel : ℕ)
    → Reached t xs
    → length xs < fuel
    → (routes : Routes) × (routes_read fuel t ≡ some routes)
      × (length routes.table ≡ length xs)
      × IsRouting routes
unfolding routes_read
Reached-IsRouting t xs fuel reached enough =
    let good = Reached-IsTable t xs reached in
    let found = routes_from-IsSegment fuel t.items t.g_ipv4_routes xs enough good.segment in
    (view t xs, rw (found, routes_read) refl, length-routes_of t.items xs, good.routing)
