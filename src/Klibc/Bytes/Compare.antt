-- ===== src/Klibc/Bytes/Compare.antt =====
-- memcmp compares at the first byte that differs.
use m68k_system.Common.{
  ℕ, zero, suc, ◌+◌, ◌-◌, ◌≤◌, ◌<◌, ◌≡◌, ◌≢◌, ◌∙◌, refl, ◌⊎◌, inl, inr, true, false, ◌==◌, Store,
  arith, pos, sub_ℕ, ap,
}
use mathlib.Core.Path.{ap₂, sym}
use m68k_system.Klibc.Bytes.{compare_loop, memcmp}

compare_loop-first :
    (n k s1 s2 : ℕ) (m : Store)
    → k ≤ n
    → ((i : ℕ) → i < k → m (s1 + i) ≡ m (s2 + i))
    → (m (s1 + k) ≢ m (s2 + k)) ⊎ (k ≡ n)
    → compare_loop n s1 s2 m ≡ sub_ℕ (m (s1 + k)) (m (s2 + k))
unfolding compare_loop
compare_loop-first zero zero s1 s2 m h same d =
    ap₂ (λ a b. sub_ℕ (m a) (m b)) (omega arith) (omega arith)
compare_loop-first zero (suc k) s1 s2 m h same d = absurd (omega arith)
compare_loop-first (suc n) zero s1 s2 m h same (inl d) =
    let a : s1 + 0 ≡ s1 = omega arith in
    let b : s2 + 0 ≡ s2 = omega arith in
    let miss : (m s1 == m s2) ≡ false = ground (arith, ap m a, ap m b) in
    rw miss (ap₂ (λ x y. sub_ℕ (m x) (m y)) (sym a) (sym b))
compare_loop-first (suc n) zero s1 s2 m h same (inr d) = absurd (omega arith)
compare_loop-first (suc n) (suc k) s1 s2 m h same d =
    let a : s1 + 0 ≡ s1 = omega arith in
    let b : s2 + 0 ≡ s2 = omega arith in
    let a' : s1 + suc k ≡ s1 + 1 + k = omega arith in
    let b' : s2 + suc k ≡ s2 + 1 + k = omega arith in
    let hit : (m s1 == m s2) ≡ true = ground (arith, ap m a, ap m b, same 0 (omega arith)) in
    rw (hit, a', b')
      (compare_loop-first n k (s1 + 1) (s2 + 1) m (omega arith) (λ i l. later i l) (side d a' b'))
  where
    later : (i : ℕ) → i < k → m (s1 + 1 + i) ≡ m (s2 + 1 + i)
    later i l =
        let e : s1 + 1 + i ≡ s1 + suc i = omega arith in
        let e' : s2 + 1 + i ≡ s2 + suc i = omega arith in rw (e, e') (same (suc i) (omega arith))

    side :
        (m (s1 + suc k) ≢ m (s2 + suc k)) ⊎ (suc k ≡ suc n)
        → s1 + suc k ≡ s1 + 1 + k
        → s2 + suc k ≡ s2 + 1 + k
        → (m (s1 + 1 + k) ≢ m (s2 + 1 + k)) ⊎ (k ≡ n)
    side (inl x) e e' = inl (rw (← e, ← e') x)
    side (inr x) e e' = inr (omega arith)

-- memcmp is the difference of the first bytes that differ among the `n`.
pub memcmp_differ :
    (s1 s2 n k : ℕ) (m : Store)
    → k < n
    → ((i : ℕ) → i < k → m (s1 + i) ≡ m (s2 + i))
    → m (s1 + k) ≢ m (s2 + k)
    → memcmp s1 s2 n m ≡ sub_ℕ (m (s1 + k)) (m (s2 + k))
unfolding memcmp
memcmp_differ s1 s2 n k m h same d =
    let more : (n == 0) ≡ false = ground arith in
    rw more (compare_loop-first (n - 1) k s1 s2 m (omega arith) same (inl d))

-- memcmp is zero if the `n` bytes are equal.
pub memcmp_same :
    (s1 s2 n : ℕ) (m : Store)
    → ((i : ℕ) → i < n → m (s1 + i) ≡ m (s2 + i))
    → memcmp s1 s2 n m ≡ pos 0
unfolding memcmp
memcmp_same s1 s2 zero m same = refl
memcmp_same s1 s2 (suc n) m same =
    let more : (suc n == 0) ≡ false = ground arith in
    let e : suc n - 1 ≡ n = omega arith in
    let last = same n (omega arith) in
    rw (more, e)
      (compare_loop-first n n s1 s2 m (omega arith) (λ i l. same i (omega arith)) (inr refl)
        ∙ ground (arith, last))
