-- ===== src/Util/Ktime/Stamp/Months.antt =====
-- The month of a time of the year, and the times at which years begin.
use m68k_system.Common.{
  ℕ, zero, suc, ◌+◌, ◌*◌, ◌%◌, ◌^◌, ◌≤◌, ◌<◌, ◌≡◌, refl, Bool-cases, inl, inr, true, false, not,
  ltb, leb, ◌==◌, if◌then◌else◌, arith, List, [], ◌∷◌, all_below, all_below_sound, eq_of_eqb,
  length, get_or,
}
use m68k_system.Util.Ktime.Tables.{ts_month_offset_common, ts_month_offset_leap}
use m68k_system.Util.Ktime.Calendar.{days_of_years, days_of_months, table_entry}
use m68k_system.Util.Ktime.Stamp.{year_offset, month_index, year_time}
use m68k_system.Util.Ktime.Stamp.Years.{Holds, year_offset-days}

abbrev pub month_offsets : ℕ → List ℕ
month_offsets i = if not ((i + 1) % 4 == 0) then ts_month_offset_common else ts_month_offset_leap

-- All offsets below the index are reached, and the one at the index, if any, is not.
pub month_index-reached :
    (offsets : List ℕ) (t k : ℕ) → k < month_index offsets t → get_or offsets k 0 ≤ t
unfolding month_index
month_index-reached [] t k h = absurd (omega arith)
month_index-reached (x ∷ xs) t zero h = ground arith
month_index-reached (x ∷ xs) t (suc k) h = month_index-reached xs t k (ground arith)

pub month_index-next :
    (offsets : List ℕ) (t : ℕ)
    → month_index offsets t < length offsets
    → t < get_or offsets (month_index offsets t) 0
unfolding month_index
month_index-next [] t h = absurd (omega arith)
month_index-next (x ∷ xs) t h = elim (Bool-cases (leb x t)) [
  | inl reached ↦ rw reached (month_index-next xs t (ground arith))
  | inr first ↦ rw first (ground arith)
]

pub month_index-le : (offsets : List ℕ) (t : ℕ) → month_index offsets t ≤ length offsets
unfolding month_index
month_index-le [] t = omega arith
month_index-le (x ∷ xs) t = ground (arith, month_index-le xs t)

-- The tables agree with the calendar.
offsets_table :
    all_below 138 (λ i.
      all_below 11 (λ k. get_or (month_offsets i) k 0 == 86400 * days_of_months (1901 + i) (k + 1)))
    ≡ true
unfolding all_below days_of_months
offsets_table = refl

pub month_offset-days :
    (i k : ℕ)
    → i < 138
    → k < 11
    → get_or (month_offsets i) k 0 ≡ 86400 * days_of_months (1901 + i) (k + 1)
month_offset-days i k h l = eq_of_eqb _ _ (
    table_entry i k
      (λ i k. get_or (month_offsets i) k 0 == 86400 * days_of_months (1901 + i) (k + 1)) 138 11
      offsets_table h l)

last_table : all_below 138 (λ i. get_or (month_offsets i) 11 0 == 2147483647) ≡ true
unfolding all_below
last_table = refl

pub last_offset : (i : ℕ) → i < 138 → get_or (month_offsets i) 11 0 ≡ 2147483647
last_offset i h =
    eq_of_eqb _ _
      (all_below_sound 138 (λ i. get_or (month_offsets i) 11 0 == 2147483647) i last_table h)

pub length-month_offsets : (i : ℕ) → length (month_offsets i) ≡ 12
length-month_offsets i = ground arith

year_table :
    all_below 138
      (λ i. days_of_years (i + 2) == days_of_years (i + 1) + days_of_months (1901 + i) 12)
    ≡ true
unfolding all_below days_of_years days_of_months
year_table = refl

pub days_of_years-months :
    (i : ℕ) → i < 138 → days_of_years (i + 2) ≡ days_of_years (i + 1) + days_of_months (1901 + i) 12
days_of_years-months i h = eq_of_eqb _ _ (
    all_below_sound 138
      (λ i. days_of_years (i + 2) == days_of_years (i + 1) + days_of_months (1901 + i) 12) i
      year_table h)

short_table : all_below 138 (λ i. leb (days_of_months (1901 + i) 12) 366) ≡ true
unfolding all_below days_of_months
short_table = refl

pub year_days-le : (i : ℕ) → i < 138 → days_of_months (1901 + i) 12 ≤ 366
year_days-le i h =
    ground
      (arith, all_below_sound 138 (λ i. leb (days_of_months (1901 + i) 12) 366) i short_table h)

first_year : days_of_years 1 ≡ 365
unfolding days_of_years
first_year = refl

last_year : days_of_years 139 ≡ 50769
unfolding days_of_years
last_year = refl

-- The time of the year counts from the start of the year, in seconds since 1900 began.
pub year_time-start :
    (ts i : ℕ) → Holds ts i → ts + 61505152 ≡ 86400 * days_of_years (i + 1) + year_time ts i
unfolding year_time
year_time-start ts zero h = omega (arith, first_year)
year_time-start ts (suc i) h =
    let e : i + 1 ≡ suc i = omega arith in
    let e' : i + 2 ≡ suc i + 1 = omega arith in
    let start = year_offset-days i (omega (arith, h.0)) in
    let start' : year_offset (suc i) + 61505152 ≡ 86400 * days_of_years (suc i + 1) =
      rw (e, e') at start in
    let low = h.1 in let later : (suc i == 0) ≡ false = ground arith in rw later (omega arith)

-- The time lies inside the year.
pub year_time-below :
    (ts i : ℕ) → ts < 2 ^ 32 → Holds ts i → ts + 61505152 < 86400 * days_of_years (i + 2)
year_time-below ts i small h = elim (Bool-cases (ltb i 137)) [
  | inl early ↦
      let l : i < 137 = ground arith in
      let d = year_offset-days i l in
      let (le, low, next) = h in
      elim next [ inl before ↦ omega (arith, d) | inr last ↦ absurd (omega arith) ]
  | inr late ↦
      let le = h.0 in
      let e : i ≡ 137 = ground arith in
      let e' : i + 2 ≡ 139 = omega arith in rw (e', last_year) (omega arith)
]
