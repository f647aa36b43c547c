-- ===== src/Klibc/Errors/Distinct.antt =====
-- Each error has a message of its own.
use Prim.Native.String.{String}
use Prim.Native.Char.{code}
use m68k_system.Common.{
  ℕ, ◌≤◌, ◌<◌, ◌≡◌, refl, sym, ◌∙◌, ◌⊎◌, inl, inr, Bool-cases, eq_of_eqb, Bool, true, false, not,
  ◌&&◌, ◌||◌, List, [], ◌∷◌, ltb, leb, ◌==◌, if◌then◌else◌, arith, all_below, all_below_sound,
}
use m68k_system.Klibc.Errors.{messages, message_of, strerror}

abbrev codes : String → List ℕ
codes String.[] = []
codes (String.◌∷◌ c s) = code c ∷ codes s

unfoldable pub same : List ℕ → List ℕ → Bool
same [] [] = true
same [] (y ∷ ys) = false
same (x ∷ xs) [] = false
same (x ∷ xs) (y ∷ ys) = (x == y) && same xs ys

abbrev pub known : ℕ → Bool
known n = leb n 132 && not (n == 41) && not (n == 58)

same_refl : (xs : List ℕ) → same xs xs ≡ true
unfolding same
same_refl [] = refl
same_refl (x ∷ xs) = ground (arith, same_refl xs)

abbrev tells_apart : ℕ → ℕ → Bool
tells_apart n k =
    (n == k)
    || (not (known n) && not (known k))
    || not (same (codes (strerror n)) (codes (strerror k)))

messages_table : all_below 134 (λ n. all_below 134 (tells_apart n)) ≡ true
unfolding all_below same strerror
messages_table = refl

-- A number above all that have a message has the message of 133, which has none either.
abbrev all_small : List (ℕ × String) → Bool
all_small [] = true
all_small ((number, message) ∷ rest) = ltb number 133 && all_small rest

message_of-absent :
    (ms : List (ℕ × String)) (n : ℕ)
    → all_small ms ≡ true
    → 133 ≤ n
    → message_of ms n ≡ "Unknown error"
unfolding message_of
message_of-absent [] n small h = refl
message_of-absent ((number, message) ∷ rest) n small h =
    let other : (number == n) ≡ false = ground arith in
    let later : all_small rest ≡ true = ground arith in rw other (message_of-absent rest n later h)

messages_small : all_small messages ≡ true
unfolding messages
messages_small = refl

abbrev clamp : ℕ → ℕ
clamp n = if ltb n 133 then n else 133

strerror-clamp : (n : ℕ) → strerror n ≡ strerror (clamp n)
unfolding strerror
strerror-clamp n = elim (Bool-cases (ltb n 133)) [
  | inl low ↦ rw low refl
  | inr high ↦ rw high (
      message_of-absent messages n messages_small (ground arith)
      ∙ sym (message_of-absent messages 133 messages_small (omega arith)))
]

apart_small :
    (n k : ℕ)
    → n < 134
    → k < 134
    → strerror n ≡ strerror k
    → (n ≡ k) ⊎ ((known n ≡ false) × (known k ≡ false))
apart_small n k h l e =
    let t =
      all_below_sound 134 (tells_apart n) k
        (all_below_sound 134 (λ n. all_below 134 (tells_apart n)) n messages_table h) l in
    let s : same (codes (strerror n)) (codes (strerror k)) ≡ true =
      rw e (same_refl (codes (strerror k))) in
    elim (Bool-cases (n == k)) [
      | inl equal ↦ inl (eq_of_eqb n k equal)
      | inr other ↦ inr (ground arith)
    ]

known-clamp : (n : ℕ) → known (clamp n) ≡ known n
known-clamp n = ground arith

clamp-eq : (n k : ℕ) → clamp n ≡ clamp k → (n ≡ k) ⊎ ((known n ≡ false) × (known k ≡ false))
clamp-eq n k e = elim (Bool-cases (ltb n 133)) [
  | inl low ↦ inl (ground arith)
  | inr high ↦ inr (ground arith, ground arith)
]

-- For all numbers: strerror gives two of them the same message only if they are equal, or if both are
-- among those without a message: 41, 58 and all above 132.
pub strerror_distinct :
    (n k : ℕ) → strerror n ≡ strerror k → (n ≡ k) ⊎ ((known n ≡ false) × (known k ≡ false))
strerror_distinct n k e =
    elim (apart_small (clamp n) (clamp k) (ground arith) (ground arith)
      (sym (strerror-clamp n) ∙ e ∙ strerror-clamp k)) [
        | inl equal ↦ clamp-eq n k equal
        | inr unknown ↦ inr (sym (known-clamp n) ∙ unknown.0, sym (known-clamp k) ∙ unknown.1)
      ]
