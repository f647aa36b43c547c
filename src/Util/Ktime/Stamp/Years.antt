-- ===== src/Util/Ktime/Stamp/Years.antt =====
-- The year of a timestamp.
use m68k_system.Common.{
  ℕ, zero, suc, ◌+◌, ◌-◌, ◌*◌, ◌≤◌, ◌<◌, ◌≡◌, ◌⊎◌, refl, Bool-cases, inl, inr, true, ltb, leb, ◌==◌,
  arith, List, [], ◌∷◌, all_below, all_below_sound, eq_of_eqb,
}
use m68k_system.Util.Ktime.Calendar.{days_of_years}
use m68k_system.Util.Ktime.Stamp.{year_offset, step_search, walk_down, walk_up, year_index}

abbrev total : List ℕ → ℕ
total [] = 0
total (x ∷ xs) = x + total xs

step_search-le : (steps : List ℕ) (ts i : ℕ) → step_search steps ts i ≤ i + total steps
unfolding step_search
step_search-le [] ts i = omega arith
step_search-le (step ∷ steps) ts i =
    let lower = step_search-le steps ts (i - step) in
    let upper = step_search-le steps ts (i + step) in
    elim (Bool-cases (ltb ts (year_offset i))) [
      | inl below ↦ rw below (omega (arith, lower))
      | inr above ↦ rw above (elim (Bool-cases (leb (year_offset (i + 1)) ts)) [
        | inl later ↦ rw later (omega (arith, upper))
        | inr here ↦ rw here (omega arith)
      ])
    ]

walk_down-le : (ts i : ℕ) → (walk_down ts i ≤ i) × (year_offset (walk_down ts i) ≤ ts)
unfolding walk_down
walk_down-le ts zero = (omega arith, omega arith)
walk_down-le ts (suc i) =
    let (le, low) = walk_down-le ts i in
    elim (Bool-cases (ltb ts (year_offset (suc i)))) [
      | inl below ↦ rw below (omega arith, low)
      | inr above ↦ rw above (omega arith, ground arith)
    ]

-- The year begins at or before the timestamp, and the next one, where the table has it, after it.
abbrev pub Holds : ℕ → ℕ → Type 0
Holds ts i = (i ≤ 137) × (year_offset i ≤ ts) × ((ts < year_offset (i + 1)) ⊎ (i ≡ 137))

walk_up-Holds :
    (rounds ts i : ℕ)
    → 138 ≤ rounds + i
    → i ≤ 137
    → year_offset i ≤ ts
    → Holds ts (walk_up rounds ts i)
unfolding walk_up
walk_up-Holds zero ts i enough le low = absurd (omega arith)
walk_up-Holds (suc rounds) ts i enough le low = elim (Bool-cases (leb (year_offset (i + 1)) ts)) [
  | inl later ↦ elim (Bool-cases (ltb i 137)) [
    | inl more ↦
        rw (later, more)
          (walk_up-Holds rounds ts (i + 1) (omega arith) (ground arith) (ground arith))
    | inr last ↦ rw (later, last) (le, low, inr (ground arith))
  ]
  | inr here ↦ rw here (le, low, inl (ground arith))
]

pub year_index-Holds : (ts : ℕ) → Holds ts (year_index ts)
unfolding year_index
year_index-Holds ts =
    let steps = 32 ∷ 16 ∷ 8 ∷ 4 ∷ 2 ∷ 1 ∷ [] in
    let found = step_search-le steps ts 69 in
    let (le, low) = walk_down-le ts (step_search steps ts 69) in
    walk_up-Holds 138 ts (walk_down ts (step_search steps ts 69)) (omega arith) (omega arith) low

-- Entry `i + 1` of the table is the start of the year 1902 + i.
offset_table :
    all_below 137 (λ i. year_offset (i + 1) + 61505152 == 86400 * days_of_years (i + 2)) ≡ true
unfolding all_below days_of_years
offset_table = refl

pub year_offset-days :
    (i : ℕ) → i < 137 → year_offset (i + 1) + 61505152 ≡ 86400 * days_of_years (i + 2)
year_offset-days i h = eq_of_eqb _ _ (
    all_below_sound 137 (λ i. year_offset (i + 1) + 61505152 == 86400 * days_of_years (i + 2)) i
      offset_table h)
