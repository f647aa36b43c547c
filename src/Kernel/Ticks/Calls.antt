-- ===== src/Kernel/Ticks/Calls.antt =====
-- Which callbacks one tick calls.
use m68k_system.Common.{
  ℕ, zero, suc, ◌+◌, ◌≡◌, ◌≢◌, ◌∙◌, sym, refl, ap, inl, inr, true, false, some, List, [], ◌∷◌, ◌++◌,
  ◌==◌, if◌then◌else◌, get_elem?, Bool-cases, eq_of_eqb, arith,
}
use m68k_system.Kernel.Ticks.{TickCallback, Ticks, counted_down, step_callback, run_callbacks, tick}

-- How often a number is in a list.
unfoldable pub count : ℕ → List ℕ → ℕ
count x [] = 0
count x (y ∷ ys) = let rest = count x ys in if y == x then suc rest else rest

-- The callbacks called in `k` ticks, and the state after them.
unfoldable pub ticks : ℕ → Ticks → List ℕ × Ticks
ticks zero st = ([], st)
ticks (suc k) st =
    let before = ticks k st in let last = tick true before.1 in (before.0 ++ last.0, last.1)

-- The callback `i` is the only one with its identifier.
unfoldable pub IsAlone : ℕ → ℕ → List TickCallback → Type 0
IsAlone i x cs = (j : ℕ) (c : TickCallback) → get_elem? cs j ≡ some c → j ≢ i → c.id ≢ x

step_callback-id : (c : TickCallback) → (step_callback c).id ≡ c.id
unfolding step_callback
step_callback-id c = elim (Bool-cases (counted_down c == 0)) [
  | inl e ↦ rw e refl
  | inr e ↦ rw e refl
]

pub run_callbacks-get :
    (cs : List TickCallback) (j : ℕ) (c : TickCallback)
    → get_elem? cs j ≡ some c
    → get_elem? (run_callbacks cs).1 j ≡ some (step_callback c)
unfolding run_callbacks
run_callbacks-get [] j c h = absurd (grind arith)
run_callbacks-get (d ∷ cs) zero c h = let e : d ≡ c = grind arith in rw e refl
run_callbacks-get (d ∷ cs) (suc j) c h = run_callbacks-get cs j c h

run_callbacks-back :
    (cs : List TickCallback) (j : ℕ) (c : TickCallback)
    → get_elem? (run_callbacks cs).1 j ≡ some c
    → (d : TickCallback) × (get_elem? cs j ≡ some d) × (c.id ≡ d.id)
unfolding run_callbacks
run_callbacks-back [] j c h = absurd (grind arith)
run_callbacks-back (d ∷ cs) zero c h =
    let e : step_callback d ≡ c = grind arith in
    (d, refl, ap (λ (x : TickCallback). x.id) (sym e) ∙ step_callback-id d)
run_callbacks-back (d ∷ cs) (suc j) c h = run_callbacks-back cs j c h

pub run_callbacks-IsAlone :
    (i x : ℕ) (cs : List TickCallback) → IsAlone i x cs → IsAlone i x (run_callbacks cs).1
unfolding IsAlone
run_callbacks-IsAlone i x cs alone j c h ne =
    let (d, g, e) = run_callbacks-back cs j c h in λ same. alone j d g ne (sym e ∙ same)

ne_eqb : (a b : ℕ) → a ≢ b → (a == b) ≡ false
ne_eqb a b ne = elim (Bool-cases (a == b)) [ inl e ↦ absurd (ne (eq_of_eqb a b e)) | inr e ↦ e ]

eqb_eq : (a b : ℕ) → a ≡ b → (a == b) ≡ true
eqb_eq a b e = ground arith

-- No call of an identifier that no callback has.
run_callbacks-absent :
    (x : ℕ) (cs : List TickCallback)
    → ((j : ℕ) (c : TickCallback) → get_elem? cs j ≡ some c → c.id ≢ x)
    → count x (run_callbacks cs).0 ≡ 0
unfolding run_callbacks count
run_callbacks-absent x [] none_is = refl
run_callbacks-absent x (c ∷ cs) none_is =
    let ih = run_callbacks-absent x cs (λ j d h. none_is (suc j) d h) in
    let other : (c.id == x) ≡ false = ne_eqb c.id x (none_is 0 c refl) in
    elim (Bool-cases (counted_down c == 0)) [ inl e ↦ rw (e, other) ih | inr e ↦ rw e ih ]

pub run_callbacks-count :
    (i x : ℕ) (cs : List TickCallback) (c : TickCallback)
    → IsAlone i x cs
    → get_elem? cs i ≡ some c
    → c.id ≡ x
    → count x (run_callbacks cs).0 ≡ (if counted_down c == 0 then 1 else 0)
unfolding run_callbacks count IsAlone
run_callbacks-count i x [] c alone h e = absurd (grind arith)
run_callbacks-count zero x (d ∷ cs) c alone h e =
    let same : d ≡ c = grind arith in
    let this : (d.id == x) ≡ true = eqb_eq d.id x (ap (λ (y : TickCallback). y.id) same ∙ e) in
    let rest =
      run_callbacks-absent x cs (λ j a g. alone (suc j) a g (λ z. absurd (omega (arith, z)))) in
    rw (← same) (elim (Bool-cases (counted_down d == 0)) [
      | inl f ↦ rw (f, this, rest) refl
      | inr f ↦ rw (f, rest) refl
    ])
run_callbacks-count (suc i) x (d ∷ cs) c alone h e =
    let other : (d.id == x) ≡ false =
      ne_eqb d.id x (alone 0 d refl (λ z. absurd (omega (arith, z)))) in
    let ih =
      run_callbacks-count i x cs c (λ j a g ne. alone (suc j) a g (λ z. ne (omega (arith, z)))) h
        e in
    elim (Bool-cases (counted_down d == 0)) [
      | inl f ↦ rw (f, other, ih) refl
      | inr f ↦ rw (f, ih) refl
    ]

pub count-append : (x : ℕ) (a b : List ℕ) → count x (a ++ b) ≡ count x a + count x b
unfolding count
count-append x [] b = omega arith
count-append x (y ∷ a) b =
    let ih = count-append x a b in
    elim (Bool-cases (y == x)) [ inl e ↦ rw e (omega (arith, ih)) | inr e ↦ rw e ih ]
