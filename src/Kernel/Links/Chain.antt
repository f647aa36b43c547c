-- ===== src/Kernel/Links/Chain.antt =====
-- Chains of items in the links.
use m68k_system.Common.{
  arith, ℕ, ◌≡◌, ◌≢◌, sym, refl, true, List, [], ◌∷◌, ◌++◌, ◌==◌, Bool-cases, eq_of_eqb, write, inl,
  inr,
}
use m68k_system.Kernel.Links.{Links}

-- From `a` through the items of a list to `b`.
unfoldable pub IsChain : Links → ℕ → List ℕ → ℕ → Type 0
IsChain m a [] b = (m.next a ≡ b) × (m.prev b ≡ a)
IsChain m a (x ∷ xs) b = (m.next a ≡ x) × (m.prev x ≡ a) × IsChain m x xs b

unfoldable pub IsAbsent : ℕ → List ℕ → Type 0
IsAbsent x [] = Unit
IsAbsent x (y ∷ ys) = (x ≢ y) × IsAbsent x ys

unfoldable pub AreDistinct : List ℕ → Type 0
AreDistinct [] = Unit
AreDistinct (x ∷ xs) = IsAbsent x xs × AreDistinct xs

-- The last of `a` and the items behind it, and the first of the items before `b`.
abbrev pub end_of : ℕ → List ℕ → ℕ
end_of a [] = a
end_of a (x ∷ xs) = end_of x xs

abbrev pub first_of : List ℕ → ℕ → ℕ
first_of [] b = b
first_of (x ∷ xs) b = x

pub write_other : (m : ℕ → ℕ) (a v x : ℕ) → x ≢ a → write m a v x ≡ m x
write_other m a v x ne = elim (Bool-cases (x == a)) [
  | inl e ↦ absurd (ne (eq_of_eqb x a e))
  | inr e ↦ rw e refl
]

pub write_same : (m : ℕ → ℕ) (a v : ℕ) → write m a v a ≡ v
write_same m a v = let e : (a == a) ≡ true = ground arith in rw e refl

pub IsAbsent-right : (x : ℕ) (l r : List ℕ) → IsAbsent x (l ++ r) → IsAbsent x r
unfolding IsAbsent
IsAbsent-right x [] r h = h
IsAbsent-right x (y ∷ l) r h = IsAbsent-right x l r h.1

-- An item that is in neither part is not the end of the one nor the beginning of the other.
pub absent_end : (x a : ℕ) (l r : List ℕ) → x ≢ a → IsAbsent x (l ++ r) → x ≢ end_of a l
unfolding IsAbsent
absent_end x a [] r ne h = ne
absent_end x a (y ∷ l) r ne h = absent_end x y l r h.0 h.1

pub absent_first : (x b : ℕ) (r : List ℕ) → x ≢ b → IsAbsent x r → x ≢ first_of r b
unfolding IsAbsent
absent_first x b [] ne h = ne
absent_first x b (y ∷ r) ne h = h.0

pub next_end :
    (m : Links) (a b : ℕ) (l r : List ℕ)
    → IsChain m a (l ++ r) b
    → m.next (end_of a l) ≡ first_of r b
unfolding IsChain
next_end m a b [] [] c = c.0
next_end m a b [] (x ∷ r) c = c.0
next_end m a b (y ∷ l) r c = next_end m y b l r c.2

pub prev_first :
    (m : Links) (a b : ℕ) (l r : List ℕ)
    → IsChain m a (l ++ r) b
    → m.prev (first_of r b) ≡ end_of a l
unfolding IsChain
prev_first m a b [] [] c = c.1
prev_first m a b [] (x ∷ r) c = c.1
prev_first m a b (y ∷ l) r c = prev_first m y b l r c.2

pub IsAbsent-without :
    (y x : ℕ) (l r : List ℕ) → IsAbsent y (l ++ x ∷ r) → (y ≢ x) × IsAbsent y (l ++ r)
unfolding IsAbsent
IsAbsent-without y x [] r h = h
IsAbsent-without y x (z ∷ l) r h = let (a, b) = IsAbsent-without y x l r h.1 in (a, (h.0, b))

pub IsAbsent-with : (y x : ℕ) (l r : List ℕ) → y ≢ x → IsAbsent y (l ++ r) → IsAbsent y (l ++ x ∷ r)
unfolding IsAbsent
IsAbsent-with y x [] r ne h = (ne, h)
IsAbsent-with y x (z ∷ l) r ne h = (h.0, IsAbsent-with y x l r ne h.1)

pub distinct_without :
    (x : ℕ) (l r : List ℕ) → AreDistinct (l ++ x ∷ r) → AreDistinct (l ++ r) × IsAbsent x (l ++ r)
unfolding AreDistinct IsAbsent
distinct_without x [] r h = (h.1, h.0)
distinct_without x (z ∷ l) r h =
    let (a, b) = distinct_without x l r h.1 in
    let (c, d) = IsAbsent-without z x l r h.0 in ((d, a), ((λ e. c (sym e)), b))

pub distinct_with :
    (x : ℕ) (l r : List ℕ) → AreDistinct (l ++ r) → IsAbsent x (l ++ r) → AreDistinct (l ++ x ∷ r)
unfolding AreDistinct IsAbsent
distinct_with x [] r h g = (g, h)
distinct_with x (z ∷ l) r h g =
    (IsAbsent-with z x l r (λ e. g.0 (sym e)) h.0, distinct_with x l r h.1 g.1)

pub next_inside :
    (m : Links) (a b x : ℕ) (l r : List ℕ) → IsChain m a (l ++ x ∷ r) b → m.next x ≡ first_of r b
unfolding IsChain
next_inside m a b x [] [] c = c.2.0
next_inside m a b x [] (q ∷ r) c = c.2.0
next_inside m a b x (y ∷ l) r c = next_inside m y b x l r c.2

-- The items of a ring through a head, none of them twice.
pub record IsRing (m : Links) (h : ℕ) (xs : List ℕ) : Type 0 where
  pub chain : IsChain m h xs h
  pub distinct : AreDistinct xs
  pub absent : IsAbsent h xs
