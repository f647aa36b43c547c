-- ===== src/Klibc/Text/Order.antt =====
-- strcmp
use m68k_system.Common.{
  ℕ, zero, suc, ◌+◌, ◌<◌, ◌≡◌, refl, ◌==◌, if◌then◌else◌, some, List, [], ◌∷◌, Store, arith, length,
  ℤ, pos, sub_ℕ, Bool-cases, inl, inr, sym, eq_of_eqb,
}
use mathlib.Core.Path.{ap₂}
use mathlib.Core.Logic.{◌↔◌}
use m68k_system.Klibc.Text.{strcmp}
use m68k_system.Klibc.Text.Strings.{CString}

-- The order of two strings: the difference of the first bytes that differ, an end counting as 0.
abbrev pub order : List ℕ → List ℕ → ℤ
order [] [] = pos 0
order [] (d ∷ ds) = sub_ℕ 0 d
order (c ∷ cs) [] = sub_ℕ c 0
order (c ∷ cs) (d ∷ ds) = if c == d then order cs ds else sub_ℕ c d

-- Given fuel for each byte of the first string and its zero, strcmp comes to an end with the
-- order of the strings.
pub strcmp-order :
    (fuel p q : ℕ) (cs ds : List ℕ) (m : Store)
    → CString m p cs
    → CString m q ds
    → length cs < fuel
    → strcmp fuel p q m ≡ some (order cs ds)
unfolding strcmp
strcmp-order zero p q cs ds m s t f = absurd (omega arith)
strcmp-order (suc fuel) p q [] [] m s t f = ground arith
strcmp-order (suc fuel) p q [] (d ∷ ds) m s t f = ground arith
strcmp-order (suc fuel) p q (c ∷ cs) [] m s t f = ground arith
strcmp-order (suc fuel) p q (c ∷ cs) (d ∷ ds) m s t f =
    ground (arith, strcmp-order fuel (p + 1) (q + 1) cs ds m s.2 t.2)

sub_ℕ-zero : (a b : ℕ) → sub_ℕ a b ≡ pos 0 → a ≡ b
sub_ℕ-zero a b h = ground arith

-- Strings compare as equal only if they are.
pub order-eq :
    (p q : ℕ) (cs ds : List ℕ) (m : Store)
    → CString m p cs
    → CString m q ds
    → order cs ds ≡ pos 0
    → cs ≡ ds
order-eq p q [] [] m s t h = refl
order-eq p q [] (d ∷ ds) m s t h = absurd (t.1 (sym (sub_ℕ-zero 0 d h)))
order-eq p q (c ∷ cs) [] m s t h = absurd (s.1 (sub_ℕ-zero c 0 h))
order-eq p q (c ∷ cs) (d ∷ ds) m s t h = elim (Bool-cases (c == d)) [
  | inl same ↦
      ap₂ ◌∷◌ (eq_of_eqb c d same) (order-eq (p + 1) (q + 1) cs ds m s.2 t.2 (rw same at h))
  | inr differ ↦ absurd (let e = sub_ℕ-zero c d (rw differ at h) in ground arith)
]

order_refl : (cs : List ℕ) → order cs cs ≡ pos 0
order_refl [] = refl
order_refl (c ∷ cs) = ground (arith, order_refl cs)

-- Given fuel for each byte of the first string and its zero, strcmp comes to an end, and it gives
-- zero exactly when the strings are equal.
pub strcmp-eq :
    (fuel p q : ℕ) (cs ds : List ℕ) (m : Store)
    → CString m p cs
    → CString m q ds
    → length cs < fuel
    → (r : ℤ) × (strcmp fuel p q m ≡ some r) × ((r ≡ pos 0) ↔ (cs ≡ ds))
strcmp-eq fuel p q cs ds m s t f = (
  order cs ds,
  strcmp-order fuel p q cs ds m s t f,
  (order-eq p q cs ds m s t, λ e. rw (← e) (order_refl cs)),
)
