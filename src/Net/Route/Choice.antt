-- ===== src/Net/Route/Choice.antt =====
-- What the search of ipv4_route_get ends with.
use m68k_system.Common.{
  ℕ, zero, suc, ◌≡◌, ◌≢◌, ◌∙◌, refl, inl, inr, Bool, true, false, ◌&&◌, Option, some, List, [], ◌∷◌,
  get_elem?, Bool-cases, ℤ, pos, negsuc, arith,
}
use m68k_system.Net.Route.{Route, ltb_ℤ, leads_to, search_routes, is_negative}
use m68k_system.Net.Route.Entries.{IsEntry}

-- Whether a route has a longer prefix and a higher metric than those given.
abbrev pub exceeds : ℤ → ℤ → Route → Bool
exceeds p m r = ltb_ℤ p r.prefix_len && ltb_ℤ m r.metric

ltb_ℤ_trans : (a b c : ℤ) → ltb_ℤ a b ≡ true → ltb_ℤ b c ≡ true → ltb_ℤ a c ≡ true
ltb_ℤ_trans (pos a) (pos b) (pos c) h g = ground arith
ltb_ℤ_trans (pos a) (pos b) (negsuc c) h g = absurd (grind arith)
ltb_ℤ_trans (pos a) (negsuc b) c h g = absurd (grind arith)
ltb_ℤ_trans (negsuc a) (pos b) (pos c) h g = refl
ltb_ℤ_trans (negsuc a) (pos b) (negsuc c) h g = absurd (grind arith)
ltb_ℤ_trans (negsuc a) (negsuc b) (pos c) h g = refl
ltb_ℤ_trans (negsuc a) (negsuc b) (negsuc c) h g = ground arith

exceeds_trans :
    (p m : ℤ) (r q : Route)
    → exceeds p m r ≡ true
    → exceeds r.prefix_len r.metric q ≡ true
    → exceeds p m q ≡ true
exceeds_trans p m r q h g =
    let a = ltb_ℤ_trans p r.prefix_len q.prefix_len (ground arith) (ground arith) in
    let b = ltb_ℤ_trans m r.metric q.metric (ground arith) (ground arith) in rw (a, b) refl

pub search_routes_take :
    (a : ℕ) (r : Route) (rs : List Route) (p m : ℤ) (best : Option Route)
    → leads_to a r ≡ true
    → exceeds p m r ≡ true
    → search_routes a (r ∷ rs) p m best ≡ search_routes a rs r.prefix_len r.metric (some r)
unfolding search_routes
search_routes_take a r rs p m best h g =
    let l : ltb_ℤ p r.prefix_len ≡ true = ground arith in
    let k : ltb_ℤ m r.metric ≡ true = ground arith in rw (h, l, k) refl

pub search_routes_leave :
    (a : ℕ) (r : Route) (rs : List Route) (p m : ℤ) (best : Option Route)
    → (leads_to a r && exceeds p m r) ≡ false
    → search_routes a (r ∷ rs) p m best ≡ search_routes a rs p m best
unfolding search_routes
search_routes_leave a r rs p m best h = elim (Bool-cases (leads_to a r)) [
  | inr e ↦ rw e refl
  | inl e ↦ elim (Bool-cases (ltb_ℤ p r.prefix_len)) [
    | inr f ↦ rw (e, f) refl
    | inl f ↦ (let g : ltb_ℤ m r.metric ≡ false = (rw (e, f) at h) in rw (e, f, g) refl)
  ]
]

-- No route that leads to the address exceeds those values.
unfoldable pub IsTop : ℕ → List Route → ℤ → ℤ → Type 0
IsTop a rs p m =
    (k : ℕ) (q : Route) → get_elem? rs k ≡ some q → leads_to a q ≡ true → exceeds p m q ≡ false

not_both : (a b c : Bool) → (a && b) ≡ false → (b ≡ false → c ≡ false) → (a && c) ≡ false
not_both true b c h f = f h
not_both false b c h f = refl

pub data Choice (a : ℕ) (rs : List Route) (p m : ℤ) (best result : Option Route) : Type 0 where
  kept : result ≡ best → IsTop a rs p m → Choice a rs p m best result
  chosen :
      (i : ℕ) (r : Route)
      → result ≡ some r
      → get_elem? rs i ≡ some r
      → leads_to a r ≡ true
      → exceeds p m r ≡ true
      → IsTop a rs r.prefix_len r.metric
      → Choice a rs p m best result

IsTop-cons :
    (a : ℕ) (r : Route) (rs : List Route) (p m : ℤ)
    → (leads_to a r && exceeds p m r) ≡ false
    → IsTop a rs p m
    → IsTop a (r ∷ rs) p m
unfolding IsTop
IsTop-cons a r rs p m h rest zero q g lead =
    let e : r ≡ q = grind arith in
    let h' : (leads_to a q && exceeds p m q) ≡ false = rw (← e) h in
    let lead' = lead in (rw lead at h')
IsTop-cons a r rs p m h rest (suc k) q g lead = rest k q g lead

-- What exceeds the better values exceeds the others.
exceeds_less :
    (p m : ℤ) (r q : Route)
    → exceeds p m r ≡ true
    → exceeds p m q ≡ false
    → exceeds r.prefix_len r.metric q ≡ false
exceeds_less p m r q h g = elim (Bool-cases (exceeds r.prefix_len r.metric q)) [
  | inl e ↦ absurd (let e' = exceeds_trans p m r q h e in grind arith)
  | inr e ↦ e
]

pub ltb_ℤ_irrefl : (a : ℤ) → ltb_ℤ a a ≡ false
ltb_ℤ_irrefl (pos a) = ground arith
ltb_ℤ_irrefl (negsuc a) = ground arith

exceeds_self : (r : Route) → exceeds r.prefix_len r.metric r ≡ false
exceeds_self r = rw (ltb_ℤ_irrefl r.prefix_len) refl

pub search_routes-cases :
    (a : ℕ) (rs : List Route) (p m : ℤ) (best : Option Route)
    → Choice a rs p m best (search_routes a rs p m best)
unfolding search_routes IsTop
search_routes-cases a [] p m best = kept refl (λ k q h. absurd (grind arith))
search_routes-cases a (r ∷ rs) p m best = elim (Bool-cases (leads_to a r && exceeds p m r)) [
  | inl e ↦
      (let lead : leads_to a r ≡ true = ground arith in
        let more : exceeds p m r ≡ true = ground arith in
        let step = search_routes_take a r rs p m best lead more in
        let self : (leads_to a r && exceeds r.prefix_len r.metric r) ≡ false =
          rw (lead, exceeds_self r) refl in
        elim (search_routes-cases a rs r.prefix_len r.metric (some r)) [
          | kept h top ↦
              chosen 0 r (step ∙ h) refl lead more
                (IsTop-cons a r rs r.prefix_len r.metric self top)
          | chosen i q h g l b top ↦
              chosen (suc i) q (step ∙ h) g l (exceeds_trans p m r q more b) (
                IsTop-cons a r rs q.prefix_len q.metric
                  (rw (lead, exceeds_less r.prefix_len r.metric q r b (exceeds_self r)) refl) top)
        ])
  | inr e ↦
      (let step = search_routes_leave a r rs p m best e in
        elim (search_routes-cases a rs p m best) [
          | kept h top ↦ kept (step ∙ h) (IsTop-cons a r rs p m e top)
          | chosen i q h g l b top ↦ chosen (suc i) q (step ∙ h) g l b (
              IsTop-cons a r rs q.prefix_len q.metric
                (not_both (leads_to a r) (exceeds p m r) (exceeds q.prefix_len q.metric r) e
                  (exceeds_less p m q r b))
                top)
        ])
]

pub above :
    (p m : ℤ)
    → is_negative p ≡ false
    → is_negative m ≡ false
    → (ltb_ℤ (negsuc 0) p && ltb_ℤ (negsuc 0) m) ≡ true
above (pos p) (pos m) h g = refl
above (pos p) (negsuc m) h g = absurd (grind arith)
above (negsuc p) m h g = absurd (grind arith)

-- Every entry exceeds the values that the search begins with.
pub entry_exceeds : (q : Route) → IsEntry q → exceeds (negsuc 0) (negsuc 0) q ≢ false
entry_exceeds q entry b =
    let stored = entry.stored in
    let more = above q.prefix_len q.metric (rw stored refl) entry.signed in grind arith
