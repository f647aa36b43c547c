-- ===== src/Net/Route/Entries.antt =====
-- What the entries of the routing table always are.
use m68k_system.Common.{
  ℕ, zero, suc, ◌^◌, ◌<◌, ◌≡◌, ◌≢◌, refl, ◌⊎◌, inl, inr, true, false, not, ◌&&◌, ◌||◌, Option, some,
  eq_of_eqb, if◌then◌else◌, List, [], ◌∷◌, ◌++◌, ◌==◌, length, get_elem?, length-get_elem?,
  get_elem?-append_left, get_elem?-append_last, get_elem?-append_cases, length-append_last,
  Bool-cases, pos, arith, Code, success, einval, eexist, enomem,
}
use m68k_system.Kernel.Links.Chain.{end_of}
use m68k_system.Net.Route.{Route, Routes, ipv4_mask_valid, ipv4_mask_to_prefix_len, is_negative}
use m68k_system.Net.Route.Items.{RouteTable, is_duplicate, link, fill, ipv4_route_add}
use m68k_system.Net.Route.Paths.{
  IsSegment, routes_of, has_duplicate, find_place-IsSegment, link_nothing,
}
use m68k_system.Net.Route.Masks.{ipv4_mask_to_prefix_len_ends}

-- An entry of the table: its netmask is one, its prefix length is the one of the netmask, its metric is not negative.
pub record IsEntry (r : Route) : Type 0 where
  pub masked : ipv4_mask_valid r.mask ≡ true
  pub len : ℕ
  pub prefix : ipv4_mask_to_prefix_len r.mask ≡ some len
  pub stored : r.prefix_len ≡ pos len
  pub signed : is_negative r.metric ≡ false

-- The table: of entries, none a duplicate of an earlier one, with the default route among them where there is one.
pub record IsRouting (t : Routes) : Type 0 where
  pub entries : (i : ℕ) (r : Route) → get_elem? t.table i ≡ some r → IsEntry r
  pub unique :
      (i j : ℕ) (r r' : Route)
      → i < j
      → get_elem? t.table i ≡ some r
      → get_elem? t.table j ≡ some r'
      → is_duplicate r' r ≡ false
  pub default :
      (r : Route)
      → t.default_route ≡ some r
      → (i : ℕ) × (get_elem? t.table i ≡ some r) × (r.gateway ≡ 0) × (r.mask ≡ 0)

-- The route at the end, which is the default route when it has neither gateway nor netmask.
abbrev pub append_route : ℕ → Route → Routes → Routes
append_route n r t = record {
  table = t.table ++ record r { prefix_len = pos n } ∷ [];
  default_route =
      (if r.gateway == 0 && r.mask == 0
        then some (record r { prefix_len = pos n })
        else t.default_route);
}

has_duplicate_none :
    (r : Route) (rts : List Route) (i : ℕ) (rt : Route)
    → has_duplicate r rts ≡ false
    → get_elem? rts i ≡ some rt
    → is_duplicate r rt ≡ false
has_duplicate_none r [] i rt h g = absurd (grind arith)
has_duplicate_none r (q ∷ rts) zero rt h g = let e : q ≡ rt = grind arith in rw (← e) (ground arith)
has_duplicate_none r (q ∷ rts) (suc i) rt h g =
    let rest : has_duplicate r rts ≡ false = ground arith in has_duplicate_none r rts i rt rest g

append_default :
    (n : ℕ) (r : Route) (t : Routes) (q : Route)
    → (append_route n r t).default_route ≡ some q
    → ((q ≡ record r { prefix_len = pos n }) × (r.gateway ≡ 0) × (r.mask ≡ 0))
      ⊎ (t.default_route ≡ some q)
append_default n r t q h = elim (Bool-cases (r.gateway == 0 && r.mask == 0)) [
  | inl e ↦ (let h' = (rw e at h) in inl (grind arith, ground arith, ground arith))
  | inr e ↦ inr (rw e at h)
]

pub append_route-IsRouting :
    (n : ℕ) (r : Route) (t : Routes)
    → IsRouting t
    → ipv4_mask_valid r.mask ≡ true
    → is_negative r.metric ≡ false
    → has_duplicate r t.table ≡ false
    → ipv4_mask_to_prefix_len r.mask ≡ some n
    → IsRouting (append_route n r t)
append_route-IsRouting n r t good valid sign fresh prefix =
    let new : Route = record r { prefix_len = pos n } in
    record {
      entries = (λ i q g. elim (get_elem?-append_cases t.table new i q g) [
        | inl old ↦ good.entries i q old
        | inr last ↦
            rw (← last.1)
              (record { masked = valid; len = n; prefix = prefix; stored = refl; signed = sign })
      ]);
      unique = (λ i j q q' lt g g'. elim (get_elem?-append_cases t.table new i q g) [
        | inl old ↦ elim (get_elem?-append_cases t.table new j q' g') [
          | inl old' ↦ good.unique i j q q' lt old old'
          | inr last ↦ rw (← last.1) (has_duplicate_none r t.table i q fresh old)
        ]
        | inr last ↦ absurd (
            let l = length-get_elem? (t.table ++ new ∷ []) j q' g' in
            let m = length-append_last t.table new in let e = last.0 in omega arith)
      ]);
      default = (λ q h. elim (append_default n r t q h) [
        | inl this ↦
            (let (e, gateway, mask) = this in
              rw e (length t.table, get_elem?-append_last t.table new, gateway, mask))
        | inr old ↦
            (let (i, g, gateway, mask) = good.default q old in
              (i, get_elem?-append_left t.table (new ∷ []) i q g, gateway, mask))
      ]);
    }

-- What ipv4_route_add does with a chain of the items `xs`.
pub data Added (p : ℕ) (r : Route) (t : RouteTable) (xs : List ℕ)
    (result : Option (Code × RouteTable)) : Type 0 where
  turned_down : (code : Code) → code ≢ success → result ≡ some (code, t) → Added p r t xs result
  appended :
      (n : ℕ)
      → result ≡ some (success, fill p r n (link (end_of 0 xs) p t))
      → p ≢ 0
      → ipv4_mask_valid r.mask ≡ true
      → is_negative r.metric ≡ false
      → has_duplicate r (routes_of t.items xs) ≡ false
      → ipv4_mask_to_prefix_len r.mask ≡ some n
      → Added p r t xs result

pub ipv4_route_add-cases :
    (fuel p : ℕ) (r : Route) (t : RouteTable) (xs : List ℕ)
    → length xs < fuel
    → r.mask < 2 ^ 32
    → IsSegment t.items t.g_ipv4_routes xs 0
    → Added p r t xs (ipv4_route_add fuel p r t)
unfolding ipv4_route_add
ipv4_route_add-cases fuel p r t xs enough lt s =
    let place = find_place-IsSegment fuel t.items r 0 t.g_ipv4_routes xs enough s in
    elim (Bool-cases (not (ipv4_mask_valid r.mask) || is_negative r.metric)) [
      | inl e ↦ rw e (turned_down einval (λ x. grind arith) refl)
      | inr e ↦ elim (Bool-cases (has_duplicate r (routes_of t.items xs))) [
        | inl f ↦ rw (e, place, f) (turned_down eexist (λ x. grind arith) refl)
        | inr f ↦ elim (Bool-cases (p == 0)) [
          | inl g ↦
              (let nil = eq_of_eqb p 0 g in
                rw (e, place, f, g, nil, link_nothing t xs s)
                  (turned_down enomem (λ x. grind arith) refl))
          | inr g ↦
              (let (n, bound, found, below, tight) = ipv4_mask_to_prefix_len_ends r.mask lt in
                rw (e, place, f, g, found)
                  (appended n refl (λ x. ground arith) (ground arith) (ground arith) f found))
        ]
      ]
    ]
