-- ===== src/Net/Route/Reuse.antt =====
-- What becomes of the routing table when a route is deleted and its memory is used again.
use m68k_system.Common.{
  ℕ, zero, suc, ◌^◌, ◌≤◌, ◌<◌, ◌≡◌, ◌≢◌, ◌∙◌, sym, ap, refl, Bool, true, false, ◌||◌, some, List,
  [], ◌∷◌, ◌++◌, ◌==◌, length, pos, arith, success,
}
use m68k_system.Kernel.Links.Chain.{IsAbsent, AreDistinct, IsAbsent-right, distinct_without, end_of}
use m68k_system.Net.Route.{Route, ipv4_mask_valid, ipv4_mask_to_prefix_len, is_negative}
use m68k_system.Net.Route.Masks.{ipv4_mask_to_prefix_len_ends}
use m68k_system.Net.Route.Items.{
  RouteItem, RouteTable, put, routes_from, link, fill, ipv4_route_add, is_same, null, to_p, unlink,
  unset_default, delete_from, ipv4_route_delete,
}
use m68k_system.Net.Route.Paths.{
  IsSegment, routes_of, has_duplicate, put_same, IsAbsent-left, absent_last, IsSegment-put,
  routes_of-put, routes_of-next, IsSegment-snoc, IsSegment-before, routes_from-IsSegment,
  find_place-IsSegment, link_item, put_again, last_next, routes_of-snoc,
}

-- Whether a route in some items is the one to delete.
abbrev pub has_same : Route → List Route → Bool
has_same r [] = false
has_same r (rt ∷ rts) = is_same r rt || has_same r rts

-- The loop passes items of other routes.
delete_from_passes :
    (fuel : ℕ) (r : Route) (q : ℕ) (l : List ℕ) (p : ℕ) (rest : List ℕ) (t : RouteTable)
    → length (l ++ p ∷ rest) < fuel
    → IsSegment t.items q (l ++ p ∷ rest) 0
    → has_same r (routes_of t.items l) ≡ false
    → is_same r (t.items p).r ≡ true
    → delete_from fuel r to_p q t ≡ some (success, unset_default r t, p)
unfolding delete_from unlink IsSegment
delete_from_passes zero r q l p rest t lt s other same = absurd (omega arith)
delete_from_passes (suc fuel) r q [] p rest t lt s other same =
    let ne = s.1 in
    let some_one : (p == 0) ≡ false = ground arith in
    ap (λ x. delete_from (suc fuel) r to_p x t) s.0
    ∙ rw (some_one, same, put_again t.items p (t.items p).next refl, delete_from, unlink) refl
delete_from_passes (suc fuel) r q (x ∷ l) p rest t lt s other same =
    let ne = s.1 in
    let some_one : (x == 0) ≡ false = ground arith in
    let not_this : is_same r (t.items x).r ≡ false = ground arith in
    let others : has_same r (routes_of t.items l) ≡ false = ground arith in
    let ih = delete_from_passes fuel r (t.items x).next l p rest t (omega arith) s.2 others same in
    ap (λ y. delete_from (suc fuel) r to_p y t) s.0 ∙ rw (some_one, not_this, ih, delete_from) refl

-- The deletion of an item that is not the first one.
delete_at :
    (fuel : ℕ) (r : Route) (x p : ℕ) (l rest : List ℕ) (t : RouteTable)
    → length (x ∷ l ++ p ∷ rest) < fuel
    → IsSegment t.items t.g_ipv4_routes (x ∷ l ++ p ∷ rest) 0
    → has_same r (routes_of t.items (x ∷ l)) ≡ false
    → is_same r (t.items p).r ≡ true
    → ipv4_route_delete fuel r t ≡ some (success, unset_default r t, p)
unfolding ipv4_route_delete delete_from IsSegment
delete_at zero r x p l rest t lt s other same = absurd (omega arith)
delete_at (suc fuel) r x p l rest t lt s other same =
    let ne = s.1 in
    let some_one : (x == 0) ≡ false = ground arith in
    let not_this : is_same r (t.items x).r ≡ false = ground arith in
    let others : has_same r (routes_of t.items l) ≡ false = ground arith in
    let rest =
      delete_from_passes fuel r (t.items x).next l p rest t (omega arith) s.2 others same in
    ap (λ y. delete_from (suc fuel) r null y t) s.0
    ∙ rw (some_one, not_this, rest, delete_from) refl

-- The last item of a chain of different items is not in front of an item of it.
IsAbsent-end_of :
    (l : List ℕ) (p : ℕ) (rest : List ℕ) → AreDistinct (l ++ p ∷ rest) → IsAbsent (end_of p rest) l
unfolding IsAbsent AreDistinct
IsAbsent-end_of [] p rest d = tt
IsAbsent-end_of (x ∷ l) p rest d =
    let behind = IsAbsent-right x l (p ∷ rest) d.0 in
    let ne = absent_last x p rest behind.0 behind.1 in
    ((λ e. ne (sym e)), IsAbsent-end_of l p rest d.1)

end_of_append :
    (a : ℕ) (l : List ℕ) (p : ℕ) (rest : List ℕ) → end_of a (l ++ p ∷ rest) ≡ end_of p rest
end_of_append a [] p rest = refl
end_of_append a (x ∷ l) p rest = end_of_append x l p rest

-- Behind the items before `p`, the chain ends once `p` is linked behind the last item and filled.
cut :
    (t : RouteTable) (x : ℕ) (l : List ℕ) (p : ℕ) (rest : List ℕ) (r : Route) (n fuel : ℕ)
    → IsSegment t.items t.g_ipv4_routes (x ∷ l ++ p ∷ rest) 0
    → AreDistinct (x ∷ l ++ p ∷ rest)
    → length (x ∷ l ++ p ∷ []) < fuel
    → (t' : RouteTable) × (t' ≡ fill p r n (link (end_of 0 (x ∷ l ++ p ∷ rest)) p t))
      × (routes_from fuel t'.items t'.g_ipv4_routes
          ≡ some (routes_of t.items (x ∷ l) ++ record r { prefix_len = pos n } ∷ []))
unfolding fill
cut t x l p rest r n fuel s d enough =
    let last = end_of p rest in
    let (ne, e) = last_next t.items t.g_ipv4_routes x (l ++ p ∷ rest) 0 s in
    let this = end_of_append x l p rest in
    let linked : link (end_of 0 (x ∷ l ++ p ∷ rest)) p t
        ≡ record t { items = put t.items last (record (t.items last) { next = p }) } =
      ap (λ a. link a p t) this ∙ link_item last p t (rw (← this) ne) in
    let t1 : RouteTable = record t {
      items = put t.items last (record (t.items last) { next = p });
    } in
    let new : RouteItem = record { r = record r { prefix_len = pos n }; next = 0 } in
    let after = put t1.items p new in
    let (before, some_one) = IsSegment-before t.items t.g_ipv4_routes (x ∷ l) p rest 0 s in
    let tail = IsAbsent-end_of (x ∷ l) p rest d in
    let self = IsAbsent-left p (x ∷ l) rest ((distinct_without p (x ∷ l) rest d).1) in
    let there = put_same t1.items p new in
    let kept =
      IsSegment-put t.items last (record (t.items last) { next = p }) t.g_ipv4_routes (x ∷ l) p tail
        before in
    let kept' = IsSegment-put t1.items p new t.g_ipv4_routes (x ∷ l) p self kept in
    let whole =
      IsSegment-snoc after t.g_ipv4_routes (x ∷ l) p 0 some_one (ap (λ i. i.next) there) kept' in
    let routes : routes_of after (x ∷ l ++ p ∷ []) ≡ routes_of t.items (x ∷ l) ++ new.r ∷ [] =
      routes_of-snoc after (x ∷ l) p
      ∙ ap (λ i. routes_of after (x ∷ l) ++ i.r ∷ []) there
      ∙ ap (λ rs. rs ++ new.r ∷ [])
          (routes_of-put t1.items p new (x ∷ l) self ∙ routes_of-next t.items last p (x ∷ l)) in
    (
      fill p r n t1,
      ap (fill p r n) (sym linked),
      routes_from-IsSegment fuel after t.g_ipv4_routes (x ∷ l ++ p ∷ []) enough whole
          ∙ ap some routes,
    )

length_shorter :
    (l : List ℕ) (p : ℕ) (rest : List ℕ) → length (l ++ p ∷ []) ≤ length (l ++ p ∷ rest)
length_shorter [] p rest = omega arith
length_shorter (x ∷ l) p rest = let ih = length_shorter l p rest in omega arith

-- An addition of a route that is not refused.
added_behind :
    (fuel p : ℕ) (r : Route) (t : RouteTable) (xs : List ℕ)
    → length xs < fuel
    → IsSegment t.items t.g_ipv4_routes xs 0
    → p ≢ 0
    → ipv4_mask_valid r.mask ≡ true
    → r.mask < 2 ^ 32
    → is_negative r.metric ≡ false
    → has_duplicate r (routes_of t.items xs) ≡ false
    → (n : ℕ) × (ipv4_mask_to_prefix_len r.mask ≡ some n)
      × (ipv4_route_add fuel p r t ≡ some (success, fill p r n (link (end_of 0 xs) p t)))
unfolding ipv4_route_add
added_behind fuel p r t xs enough s some_one valid lt sign fresh =
    let place = find_place-IsSegment fuel t.items r 0 t.g_ipv4_routes xs enough s in
    let (n, bound, found, below, tight) = ipv4_mask_to_prefix_len_ends r.mask lt in
    let given : (p == 0) ≡ false = ground arith in
    (n, found, rw (valid, sign, place, fresh, given, found, ipv4_route_add) refl)

-- In a table of different items, of which those before `p`, at least one, hold other routes than the one to delete, and
-- `p` holds that one: with enough fuel the deletion succeeds and gives `p` to slab_free, but every item stays in the
-- chain; and when slab_alloc returns that memory for the next route, which is valid and no duplicate, the addition
-- succeeds and a lookup reads the routes before `p` and the new one: all those behind `p` are lost.
pub ipv4_route_add-ipv4_route_delete :
    (fuel x p : ℕ) (l rest : List ℕ) (r r' : Route) (t : RouteTable)
    → length (x ∷ l ++ p ∷ rest) < fuel
    → IsSegment t.items t.g_ipv4_routes (x ∷ l ++ p ∷ rest) 0
    → AreDistinct (x ∷ l ++ p ∷ rest)
    → has_same r (routes_of t.items (x ∷ l)) ≡ false
    → is_same r (t.items p).r ≡ true
    → ipv4_mask_valid r'.mask ≡ true
    → r'.mask < 2 ^ 32
    → is_negative r'.metric ≡ false
    → has_duplicate r' (routes_of t.items (x ∷ l ++ p ∷ rest)) ≡ false
    → (t1 : RouteTable) × (t2 : RouteTable) × (n : ℕ) × (ipv4_route_delete fuel r t
        ≡ some (success, t1, p))
      × (routes_from fuel t1.items t1.g_ipv4_routes ≡ some (routes_of t.items (x ∷ l ++ p ∷ rest)))
      × (ipv4_mask_to_prefix_len r'.mask ≡ some n)
      × (ipv4_route_add fuel p r' t1 ≡ some (success, t2))
      × (routes_from fuel t2.items t2.g_ipv4_routes
          ≡ some (routes_of t.items (x ∷ l) ++ record r' { prefix_len = pos n } ∷ []))
unfolding IsSegment
ipv4_route_add-ipv4_route_delete fuel x p l rest r r' t enough s d other same valid lt sign fresh =
    let whole = x ∷ l ++ p ∷ rest in
    let t1 = unset_default r t in
    let shorter = length_shorter (x ∷ l) p rest in
    let (before, some_one) = IsSegment-before t.items t.g_ipv4_routes (x ∷ l) p rest 0 s in
    let deleted = delete_at fuel r x p l rest t enough s other same in
    let (n, found, added) = added_behind fuel p r' t1 whole enough s some_one valid lt sign fresh in
    let (t2, e, read) = cut t1 x l p rest r' n fuel s d (omega arith) in
    (
      t1,
      t2,
      n,
      deleted,
      routes_from-IsSegment fuel t.items t.g_ipv4_routes whole enough s,
      found,
      rw e added,
      read,
    )
