-- ===== src/Common/Lists.antt =====
-- Lists measured and indexed by native numbers, under the library's names.
use Prim.Native.Nat.{ℕ, zero, suc, ◌≤◌, ◌<◌}
use mathlib.Core.Path.{◌≡◌, refl, ap}
use mathlib.Core.Logic.{◌≢◌, ◌⊎◌, inl, inr}
use mathlib.Core.Option.{Option, none, some}
use mathlib.Core.List.{List, [], ◌∷◌, ◌++◌}
use native.Mathlib.Omega.{arith}

module _ {ℓ} {A : Type ℓ} where
  abbrev pub length : List A → ℕ
  length [] = 0
  length (x ∷ xs) = suc (length xs)

  abbrev pub get_or : List A → ℕ → A → A
  get_or [] i d = d
  get_or (x ∷ xs) zero d = x
  get_or (x ∷ xs) (suc i) d = get_or xs i d

  abbrev pub get_elem? : List A → ℕ → Option A
  get_elem? [] i = none
  get_elem? (x ∷ xs) zero = some x
  get_elem? (x ∷ xs) (suc i) = get_elem? xs i

  -- A write out of bounds changes nothing.
  abbrev pub set : List A → ℕ → A → List A
  set [] i v = []
  set (x ∷ xs) zero v = v ∷ xs
  set (x ∷ xs) (suc i) v = x ∷ set xs i v

  pub length-set : (xs : List A) (i : ℕ) (v : A) → length (set xs i v) ≡ length xs
  length-set [] i v = refl
  length-set (x ∷ xs) zero v = refl
  length-set (x ∷ xs) (suc i) v = ap suc (length-set xs i v)

  pub get_or-set_self :
      (xs : List A) (i : ℕ) (v d : A) → i < length xs → get_or (set xs i v) i d ≡ v
  get_or-set_self [] i v d h = elim h [ ]
  get_or-set_self (x ∷ xs) zero v d h = refl
  get_or-set_self (x ∷ xs) (suc i) v d h = get_or-set_self xs i v d (omega arith)

  pub get_or-set_ne :
      (xs : List A) (i j : ℕ) (v d : A) → i ≢ j → get_or (set xs i v) j d ≡ get_or xs j d
  get_or-set_ne [] i j v d h = refl
  get_or-set_ne (x ∷ xs) zero zero v d h = absurd (h refl)
  get_or-set_ne (x ∷ xs) zero (suc j) v d h = refl
  get_or-set_ne (x ∷ xs) (suc i) zero v d h = refl
  get_or-set_ne (x ∷ xs) (suc i) (suc j) v d h = get_or-set_ne xs i j v d (λ e. h (ap suc e))

module _ {ℓ} {A : Type ℓ} where
  pub get_or-beyond : (xs : List A) (i : ℕ) (d : A) → length xs ≤ i → get_or xs i d ≡ d
  get_or-beyond [] i d h = refl
  get_or-beyond (x ∷ xs) zero d h = absurd (omega arith)
  get_or-beyond (x ∷ xs) (suc i) d h = get_or-beyond xs i d (omega arith)

  pub get_elem?-set_self :
      (xs : List A) (i : ℕ) (v : A) → i < length xs → get_elem? (set xs i v) i ≡ some v
  get_elem?-set_self [] i v h = elim h [ ]
  get_elem?-set_self (x ∷ xs) zero v h = refl
  get_elem?-set_self (x ∷ xs) (suc i) v h = get_elem?-set_self xs i v (omega arith)

  pub get_elem?-set_ne :
      (xs : List A) (i j : ℕ) (v : A) → i ≢ j → get_elem? (set xs i v) j ≡ get_elem? xs j
  get_elem?-set_ne [] i j v h = refl
  get_elem?-set_ne (x ∷ xs) zero zero v h = absurd (h refl)
  get_elem?-set_ne (x ∷ xs) zero (suc j) v h = refl
  get_elem?-set_ne (x ∷ xs) (suc i) zero v h = refl
  get_elem?-set_ne (x ∷ xs) (suc i) (suc j) v h = get_elem?-set_ne xs i j v (λ e. h (ap suc e))

  pub length-get_elem? : (xs : List A) (i : ℕ) (v : A) → get_elem? xs i ≡ some v → i < length xs
  length-get_elem? [] i v h = absurd (grind arith)
  length-get_elem? (x ∷ xs) zero v h = omega arith
  length-get_elem? (x ∷ xs) (suc i) v h = let l = length-get_elem? xs i v h in omega arith

  pub get_elem?-append_left :
      (xs ys : List A) (i : ℕ) (v : A) → get_elem? xs i ≡ some v → get_elem? (xs ++ ys) i ≡ some v
  get_elem?-append_left [] ys i v h = absurd (grind arith)
  get_elem?-append_left (x ∷ xs) ys zero v h = h
  get_elem?-append_left (x ∷ xs) ys (suc i) v h = get_elem?-append_left xs ys i v h

  pub get_elem?-append_last : (xs : List A) (v : A) → get_elem? (xs ++ v ∷ []) (length xs) ≡ some v
  get_elem?-append_last [] v = refl
  get_elem?-append_last (x ∷ xs) v = get_elem?-append_last xs v

  pub get_elem?-append_cases :
      (xs : List A) (y : A) (i : ℕ) (v : A)
      → get_elem? (xs ++ y ∷ []) i ≡ some v
      → (get_elem? xs i ≡ some v) ⊎ ((i ≡ length xs) × (y ≡ v))
  get_elem?-append_cases [] y zero v h = inr (refl, grind arith)
  get_elem?-append_cases [] y (suc i) v h = absurd (grind arith)
  get_elem?-append_cases (x ∷ xs) y zero v h = inl h
  get_elem?-append_cases (x ∷ xs) y (suc i) v h = elim (get_elem?-append_cases xs y i v h) [
    | inl found ↦ inl found
    | inr last ↦ inr (ap suc last.0, last.1)
  ]

  pub length-append_last : (xs : List A) (v : A) → length (xs ++ v ∷ []) ≡ suc (length xs)
  length-append_last [] v = refl
  length-append_last (x ∷ xs) v = ap suc (length-append_last xs v)

-- A shifted result that is no result.
pub map_none : (r : Option ℕ) → elim r [ none ↦ none | some i ↦ some (suc i) ] ≡ none → r ≡ none
map_none none h = refl
map_none (some i) h = absurd (grind arith)

pub none-some : (i : ℕ) → none ≢ some i
none-some i h = grind arith

-- A shifted result that is one.
pub map_some :
    (r : Option ℕ) (k : ℕ)
    → elim r [ none ↦ none | some i ↦ some (suc i) ] ≡ some k
    → (i : ℕ) × (r ≡ some i) × (k ≡ suc i)
map_some none k h = absurd (none-some k h)
map_some (some i) k h = (i, refl, grind arith)

module _ {ℓ} {A : Type ℓ} where
  pub get_elem?-set_cases :
      (xs : List A) (i j : ℕ) (v q : A)
      → get_elem? (set xs i v) j ≡ some q
      → (v ≡ q) ⊎ (get_elem? xs j ≡ some q)
  get_elem?-set_cases [] i j v q h = absurd (grind arith)
  get_elem?-set_cases (x ∷ xs) zero zero v q h = inl (grind arith)
  get_elem?-set_cases (x ∷ xs) zero (suc j) v q h = inr h
  get_elem?-set_cases (x ∷ xs) (suc i) zero v q h = inr h
  get_elem?-set_cases (x ∷ xs) (suc i) (suc j) v q h = get_elem?-set_cases xs i j v q h
