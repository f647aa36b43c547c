-- ===== src/Klibc/Text/Strings.antt =====
-- Strings in the store.
use m68k_system.Common.{ℕ, suc, ◌+◌, ◌≤◌, ◌<◌, ◌≡◌, ◌≢◌, List, [], ◌∷◌, Store, arith, length}

-- From `p` on, the store holds the bytes of the list, none of them zero, and a zero.
abbrev pub CString : Store → ℕ → List ℕ → Type 0
CString m p [] = m p ≡ 0
CString m p (c ∷ cs) = (m p ≡ c) × (c ≢ 0) × CString m (p + 1) cs

pub CString-agree :
    (m m' : Store) (p : ℕ) (cs : List ℕ)
    → ((a : ℕ) → p ≤ a → a < p + length cs + 1 → m' a ≡ m a)
    → CString m p cs
    → CString m' p cs
CString-agree m m' p [] same s = ground (arith, same p (omega arith) (omega arith))
CString-agree m m' p (c ∷ cs) same s = (
  ground (arith, same p (omega arith) (omega arith)),
  s.1,
  CString-agree m m' (p + 1) cs (λ a lo hi. same a (omega arith) (omega arith)) s.2,
)

pub CString-zero : (m : Store) (p : ℕ) (cs : List ℕ) → CString m p cs → m (p + length cs) ≡ 0
CString-zero m p [] s = let e : p + 0 ≡ p = omega arith in rw e s
CString-zero m p (c ∷ cs) s =
    let e : p + suc (length cs) ≡ p + 1 + length cs = omega arith in
    rw e (CString-zero m (p + 1) cs s.2)
