-- ===== src/Net/Route/Paths.antt =====
-- Items of the routing table that follow each other.
use m68k_system.Common.{
  ℕ, zero, suc, ◌<◌, ◌≡◌, ◌≢◌, ◌∙◌, sym, ap, refl, inl, inr, true, false, none, some, List, [], ◌∷◌,
  ◌++◌, ◌==◌, length, if◌then◌else◌, Bool, ◌||◌, Bool-cases, eq_of_eqb, arith,
}
use mathlib.Core.Path.{fun_ext}
use m68k_system.Kernel.Links.Chain.{IsAbsent, AreDistinct, end_of}
use m68k_system.Net.Route.{Route}
use m68k_system.Net.Route.Items.{
  RouteItem, RouteTable, put, routes_from, is_duplicate, find_place, link,
}

-- The items `xs`, from the pointer `p` on, the last of which points to `q`.
unfoldable pub IsSegment : (ℕ → RouteItem) → ℕ → List ℕ → ℕ → Type 0
IsSegment items p [] q = p ≡ q
IsSegment items p (x ∷ xs) q = (p ≡ x) × (x ≢ 0) × IsSegment items (items x).next xs q

-- The routes in some items.
abbrev pub routes_of : (ℕ → RouteItem) → List ℕ → List Route
routes_of items [] = []
routes_of items (x ∷ xs) = (items x).r ∷ routes_of items xs

abbrev pub has_duplicate : Route → List Route → Bool
has_duplicate r [] = false
has_duplicate r (rt ∷ rts) = is_duplicate r rt || has_duplicate r rts

pub put_same : (items : ℕ → RouteItem) (p : ℕ) (v : RouteItem) → put items p v p ≡ v
put_same items p v = let e : (p == p) ≡ true = ground arith in rw e refl

pub put_other :
    (items : ℕ → RouteItem) (p : ℕ) (v : RouteItem) (x : ℕ) → x ≢ p → put items p v x ≡ items x
put_other items p v x ne = elim (Bool-cases (x == p)) [
  | inl e ↦ absurd (ne (eq_of_eqb x p e))
  | inr e ↦ rw e refl
]

pub IsAbsent-left : (x : ℕ) (l r : List ℕ) → IsAbsent x (l ++ r) → IsAbsent x l
unfolding IsAbsent
IsAbsent-left x [] r h = tt
IsAbsent-left x (y ∷ l) r h = (h.0, IsAbsent-left x l r h.1)

pub absent_last : (x a : ℕ) (l : List ℕ) → x ≢ a → IsAbsent x l → x ≢ end_of a l
unfolding IsAbsent
absent_last x a [] ne h = ne
absent_last x a (y ∷ l) ne h = absent_last x y l h.0 h.1

-- A write of another item.
pub IsSegment-put :
    (items : ℕ → RouteItem) (a : ℕ) (v : RouteItem) (p : ℕ) (xs : List ℕ) (q : ℕ)
    → IsAbsent a xs
    → IsSegment items p xs q
    → IsSegment (put items a v) p xs q
unfolding IsSegment IsAbsent
IsSegment-put items a v p [] q h s = s
IsSegment-put items a v p (x ∷ xs) q h s =
    let rest = IsSegment-put items a v (items x).next xs q h.1 s.2 in
    (s.0, s.1, rw (put_other items a v x (λ e. h.0 (sym e))) rest)

pub routes_of-put :
    (items : ℕ → RouteItem) (a : ℕ) (v : RouteItem) (xs : List ℕ)
    → IsAbsent a xs
    → routes_of (put items a v) xs ≡ routes_of items xs
unfolding IsAbsent
routes_of-put items a v [] h = refl
routes_of-put items a v (x ∷ xs) h =
    rw (put_other items a v x (λ e. h.0 (sym e)), routes_of-put items a v xs h.1) refl

-- A write of the pointer of an item leaves every route as it is.
pub route_put :
    (items : ℕ → RouteItem) (a v x : ℕ)
    → (put items a (record (items a) { next = v }) x).r ≡ (items x).r
route_put items a v x = elim (Bool-cases (x == a)) [
  | inl e ↦ (let same = eq_of_eqb x a e in rw (e, same) refl)
  | inr e ↦ rw e refl
]

pub routes_of-next :
    (items : ℕ → RouteItem) (a v : ℕ) (xs : List ℕ)
    → routes_of (put items a (record (items a) { next = v })) xs ≡ routes_of items xs
routes_of-next items a v [] = refl
routes_of-next items a v (x ∷ xs) = rw (route_put items a v x, routes_of-next items a v xs) refl

-- The pointer of the last item is the one behind the segment.
pub IsSegment-extended :
    (items : ℕ → RouteItem) (p x : ℕ) (l : List ℕ) (q v : ℕ)
    → AreDistinct (x ∷ l)
    → IsSegment items p (x ∷ l) q
    → IsSegment (put items (end_of x l) (record (items (end_of x l)) { next = v })) p (x ∷ l) v
unfolding IsSegment AreDistinct IsAbsent
IsSegment-extended items p x [] q v d s =
    (s.0, s.1, ap (λ n. n.next) (put_same items x (record (items x) { next = v })))
IsSegment-extended items p x (y ∷ l) q v d s =
    let last = end_of y l in
    let new : RouteItem = record (items last) { next = v } in
    let rest = IsSegment-extended items (items x).next y l q v d.1 s.2 in
    let ne = absent_last x y l d.0.0 d.0.1 in (s.0, s.1, rw (put_other items last new x ne) rest)

pub IsSegment-snoc :
    (items : ℕ → RouteItem) (p : ℕ) (xs : List ℕ) (a q : ℕ)
    → a ≢ 0
    → (items a).next ≡ q
    → IsSegment items p xs a
    → IsSegment items p (xs ++ a ∷ []) q
unfolding IsSegment
IsSegment-snoc items p [] a q ne e s = (s, ne, e)
IsSegment-snoc items p (x ∷ xs) a q ne e s =
    (s.0, s.1, IsSegment-snoc items (items x).next xs a q ne e s.2)

-- The part of a segment before one of its items.
pub IsSegment-before :
    (items : ℕ → RouteItem) (p : ℕ) (l : List ℕ) (a : ℕ) (r : List ℕ) (q : ℕ)
    → IsSegment items p (l ++ a ∷ r) q
    → IsSegment items p l a × (a ≢ 0)
unfolding IsSegment
IsSegment-before items p [] a r q s = (s.0, s.1)
IsSegment-before items p (x ∷ l) a r q s =
    let (rest, ne) = IsSegment-before items (items x).next l a r q s.2 in ((s.0, s.1, rest), ne)

-- The reader comes to the items, and to no others.
pub routes_from-IsSegment :
    (fuel : ℕ) (items : ℕ → RouteItem) (p : ℕ) (xs : List ℕ)
    → length xs < fuel
    → IsSegment items p xs 0
    → routes_from fuel items p ≡ some (routes_of items xs)
unfolding routes_from IsSegment
routes_from-IsSegment zero items p xs lt s = absurd (omega arith)
routes_from-IsSegment (suc fuel) items p [] lt s = rw s refl
routes_from-IsSegment (suc fuel) items p (x ∷ xs) lt s =
    let rest = routes_from-IsSegment fuel items (items x).next xs (omega arith) s.2 in
    let ne = s.1 in
    let more : (x == 0) ≡ false = ground arith in
    ap (routes_from (suc fuel) items) s.0 ∙ rw (more, rest, routes_from) refl

-- The search for a place stops at a duplicate, or else at the last item.
pub find_place-IsSegment :
    (fuel : ℕ) (items : ℕ → RouteItem) (r : Route) (last p : ℕ) (xs : List ℕ)
    → length xs < fuel
    → IsSegment items p xs 0
    → find_place fuel items r last p
      ≡ some (if has_duplicate r (routes_of items xs) then none else some (end_of last xs))
unfolding find_place IsSegment
find_place-IsSegment zero items r last p xs lt s = absurd (omega arith)
find_place-IsSegment (suc fuel) items r last p [] lt s = rw s refl
find_place-IsSegment (suc fuel) items r last p (x ∷ xs) lt s =
    let rest = find_place-IsSegment fuel items r x (items x).next xs (omega arith) s.2 in
    let ne = s.1 in
    let more : (x == 0) ≡ false = ground arith in
    elim (Bool-cases (is_duplicate r (items x).r)) [
      | inl e ↦ rw (s.0, more, e) refl
      | inr e ↦ rw (s.0, more, e, rest) refl
    ]

-- The last item of a segment, and what it points to.
pub last_next :
    (items : ℕ → RouteItem) (p x : ℕ) (l : List ℕ) (q : ℕ)
    → IsSegment items p (x ∷ l) q
    → (end_of x l ≢ 0) × ((items (end_of x l)).next ≡ q)
unfolding IsSegment
last_next items p x [] q s = (s.1, s.2)
last_next items p x (y ∷ l) q s = last_next items (items x).next y l q s.2

pub link_item :
    (a p : ℕ) (t : RouteTable)
    → a ≢ 0
    → link a p t ≡ record t { items = put t.items a (record (t.items a) { next = p }) }
unfolding link
link_item zero p t ne = absurd (ne refl)
link_item (suc a) p t ne = refl

-- A pointer written again over itself.
pub put_again :
    (items : ℕ → RouteItem) (a v : ℕ)
    → (items a).next ≡ v
    → put items a (record (items a) { next = v }) ≡ items
put_again items a v e = fun_ext (λ x. elim (Bool-cases (x == a)) [
  | inl f ↦ (let same = eq_of_eqb x a f in rw (f, ← e, same) refl)
  | inr f ↦ rw f refl
])

-- The write of NULL where NULL is.
pub link_nothing :
    (t : RouteTable) (xs : List ℕ)
    → IsSegment t.items t.g_ipv4_routes xs 0
    → link (end_of 0 xs) 0 t ≡ t
unfolding IsSegment link
link_nothing t [] s = ap (λ h. record t { g_ipv4_routes = h }) (sym s)
link_nothing t (x ∷ xs) s =
    let (ne, e) = last_next t.items t.g_ipv4_routes x xs 0 s in
    link_item (end_of x xs) 0 t ne
    ∙ ap (λ i. record t { items = i }) (put_again t.items (end_of x xs) 0 e)

pub routes_of-snoc :
    (items : ℕ → RouteItem) (xs : List ℕ) (p : ℕ)
    → routes_of items (xs ++ p ∷ []) ≡ routes_of items xs ++ (items p).r ∷ []
routes_of-snoc items [] p = refl
routes_of-snoc items (x ∷ xs) p = rw (routes_of-snoc items xs p) refl
