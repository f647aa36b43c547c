-- ===== src/Util/Ktime/Calendar.antt =====
-- The day of the week, against a count of days.
use m68k_system.Common.{
  ℕ, zero, suc, ◌+◌, ◌-◌, ◌%◌, ◌≤◌, ◌<◌, ◌≡◌, ◌∙◌, refl, ap, Bool, true, not, ◌&&◌, ◌||◌,
  Bool-cases, inl, inr, none, some, ltb, leb, ◌==◌, if◌then◌else◌, get_or, arith, all_below,
  all_below_sound, eq_of_eqb, lt_of_ltb, le_of_leb, get_or-beyond,
}
use m68k_system.Util.Ktime.{is_leap_year, drop_at, dow_anchor, day_of_week_unchecked, day_of_week}
use m68k_system.Util.Ktime.Tables.{days_in_month_leap}

-- The Gregorian calendar: a year is a leap year if four divides it, but not if a hundred does,
-- unless four hundred does.
abbrev pub leap_rule : ℕ → Bool
leap_rule y = ((y % 4 == 0) && not (y % 100 == 0)) || (y % 400 == 0)

-- is_leap_year is the rule of the Gregorian calendar.
pub is_leap_year-leap_rule : (y : ℕ) → is_leap_year y ≡ leap_rule y
unfolding is_leap_year
is_leap_year-leap_rule y = ground arith

abbrev pub month_days : ℕ → ℕ → ℕ
month_days y m = if (m == 2) && not (leap_rule y) then 28 else get_or days_in_month_leap (m - 1) 0

-- The days of the first `k` months of a year, and of the `n` years from 1900 on.
unfoldable pub days_of_months : ℕ → ℕ → ℕ
days_of_months y zero = 0
days_of_months y (suc k) = days_of_months y k + month_days y (suc k)

unfoldable pub days_of_years : ℕ → ℕ
days_of_years zero = 0
days_of_years (suc n) = days_of_years n + (if leap_rule (1900 + n) then 366 else 365)

-- The days from the first of January 1900, a Monday, to a date.
abbrev pub day_number : ℕ → ℕ → ℕ → ℕ
day_number y m d = days_of_years (y - 1900) + days_of_months y (m - 1) + (d - 1)

-- The anchor moves on from month to month and from year to year by the lengths of these.
month_table :
    all_below 200 (λ n. all_below 11 (λ k.
      dow_anchor (1900 + n) (k + 2) % 7
      == (dow_anchor (1900 + n) (k + 1) + month_days (1900 + n) (k + 1)) % 7))
    ≡ true
unfolding all_below dow_anchor
month_table = refl

year_table :
    all_below 199 (λ n.
      dow_anchor (1901 + n) 1 % 7
      == (dow_anchor (1900 + n) 1 + (if leap_rule (1900 + n) then 366 else 365)) % 7)
    ≡ true
unfolding all_below dow_anchor
year_table = refl

small_table : all_below 200 (λ n. all_below 12 (λ k. ltb (dow_anchor (1900 + n) (k + 1)) 19)) ≡ true
unfolding all_below dow_anchor
small_table = refl

pub table_entry :
    (n k : ℕ) (p : ℕ → ℕ → Bool) (rows cols : ℕ)
    → all_below rows (λ i. all_below cols (p i)) ≡ true
    → n < rows
    → k < cols
    → p n k ≡ true
table_entry n k p rows cols h i j =
    all_below_sound cols (p n) k (all_below_sound rows (λ r. all_below cols (p r)) n h i) j

anchor_month :
    (n k : ℕ)
    → n < 200
    → k < 11
    → dow_anchor (1900 + n) (k + 2) % 7
      ≡ (dow_anchor (1900 + n) (k + 1) + month_days (1900 + n) (k + 1)) % 7
anchor_month n k i j = eq_of_eqb _ _ (
    table_entry n k
      (λ n k.
        dow_anchor (1900 + n) (k + 2) % 7
        == (dow_anchor (1900 + n) (k + 1) + month_days (1900 + n) (k + 1)) % 7)
      200 11 month_table i j)

anchor_year :
    (n : ℕ)
    → n < 199
    → dow_anchor (1901 + n) 1 % 7
      ≡ (dow_anchor (1900 + n) 1 + (if leap_rule (1900 + n) then 366 else 365)) % 7
anchor_year n i = eq_of_eqb _ _ (
    all_below_sound 199
      (λ n.
        dow_anchor (1901 + n) 1 % 7
        == (dow_anchor (1900 + n) 1 + (if leap_rule (1900 + n) then 366 else 365)) % 7)
      n year_table i)

anchor_small : (n k : ℕ) → n < 200 → k < 12 → dow_anchor (1900 + n) (k + 1) < 19
anchor_small n k i j =
    lt_of_ltb _ _
      (table_entry n k (λ n k. ltb (dow_anchor (1900 + n) (k + 1)) 19) 200 12 small_table i j)

-- The anchor of a year's first month counts the days of the years before.
anchor-years : (n : ℕ) → n < 200 → dow_anchor (1900 + n) 1 % 7 ≡ days_of_years n % 7
unfolding days_of_years
anchor-years zero i = unfold dow_anchor in refl
anchor-years (suc n) i =
    let e : 1900 + suc n ≡ 1901 + n = omega arith in
    rw e (omega (arith, anchor_year n (omega arith), anchor-years n (omega arith)))

anchor-days :
    (n k : ℕ)
    → n < 200
    → k < 12
    → dow_anchor (1900 + n) (k + 1) % 7 ≡ (days_of_years n + days_of_months (1900 + n) k) % 7
unfolding days_of_months
anchor-days n zero i j = omega (arith, anchor-years n i)
anchor-days n (suc k) i j =
    let e : suc k + 1 ≡ k + 2 = omega arith in
    let e' : suc k ≡ k + 1 = omega arith in
    let ih = anchor-days n k i (omega arith) in
    rw e (rw e' (omega (arith, anchor_month n k i (omega arith), ih)))

drops-mod : (a : ℕ) → a < 56 → drop_at 7 (drop_at 14 (drop_at 28 a)) ≡ a % 7
drops-mod a h = ground arith

-- A date of the years from 1900 to 2099.
abbrev pub is_date : ℕ → ℕ → ℕ → Bool
is_date y m d = leb 1900 y && leb y 2099 && leb 1 m && leb m 12 && leb 1 d && leb d (month_days y m)

pub month_days-le : (y m : ℕ) → month_days y m ≤ 31
month_days-le y m = elim (Bool-cases ((m == 2) && not (leap_rule y))) [
  | inl february ↦ rw february (omega arith)
  | inr other ↦ rw other (get_days-le (m - 1))
]
  where
    get_days-le : (i : ℕ) → get_or days_in_month_leap i 0 ≤ 31
    get_days-le i = elim (Bool-cases (ltb i 12)) [
      | inl low ↦ le_of_leb _ _ (
          all_below_sound 12 (λ i. leb (get_or days_in_month_leap i 0) 31) i
            (unfold all_below in refl) (lt_of_ltb i 12 low))
      | inr high ↦ rw (get_or-beyond days_in_month_leap i 0 (ground arith)) (omega arith)
    ]

-- The tests of day_of_week, for a month of `len` days in a leap year.
tests_agree :
    (y m d len : ℕ) (leap : Bool) (r : ℕ)
    → (m ≡ 2 → len ≡ 29)
    → (if ltb y 1900
          || ltb 2099 y
          || ltb m 1
          || ltb 12 m
          || ltb d 1
          || ltb len d
          || ((m == 2) && (d == 29) && not leap)
        then none
        else some r)
      ≡ (if leb 1900 y
            && leb y 2099
            && leb 1 m
            && leb m 12
            && leb 1 d
            && leb d (if (m == 2) && not leap then 28 else len)
          then some r
          else none)
tests_agree y m d len leap r feb = elim (Bool-cases (m == 2)) [
  | inl two ↦ rw two (ground (arith, feb (eq_of_eqb m 2 two)))
  | inr other ↦ rw other (ground arith)
]

-- day_of_week accepts a date
accepts :
    (y m d : ℕ)
    → day_of_week y m d ≡ (if is_date y m d then some (day_of_week_unchecked y m d) else none)
unfolding day_of_week
accepts y m d = rw (is_leap_year-leap_rule y) (
    tests_agree y m d (get_or days_in_month_leap (m - 1) 0) (leap_rule y)
      (day_of_week_unchecked y m d) (λ e. rw e refl))

unchecked-day_number :
    (n k d : ℕ)
    → n < 200
    → k < 12
    → d < 37
    → day_of_week_unchecked (1900 + n) (k + 1) (d + 1)
      ≡ (days_of_years n + days_of_months (1900 + n) k + d + 1) % 7 + 1
unfolding day_of_week_unchecked
unchecked-day_number n k d i j h =
    rw (drops-mod (dow_anchor (1900 + n) (k + 1) + (d + 1)) (omega (arith, anchor_small n k i j)))
      (omega (arith, anchor-days n k i j))

pub range_of_tests :
    (y m d len : ℕ)
    → (leb 1900 y && leb y 2099 && leb 1 m && leb m 12 && leb 1 d && leb d len) ≡ true
    → (1900 ≤ y) × (y < 2100) × (1 ≤ m) × (m ≤ 12) × (1 ≤ d) × (d ≤ len)
range_of_tests y m d len h = ground arith

pub counted :
    (y m d : ℕ)
    → is_date y m d ≡ true
    → day_of_week_unchecked y m d ≡ (day_number y m d + 1) % 7 + 1
counted y m d date =
    let in_range : (1900 ≤ y) × (y < 2100) × (1 ≤ m) × (m ≤ 12) × (1 ≤ d) × (d ≤ month_days y m) =
      range_of_tests y m d (month_days y m) date in
    let ey : 1900 + (y - 1900) ≡ y = omega arith in
    let em : m - 1 + 1 ≡ m = omega arith in
    let ed : d - 1 + 1 ≡ d = omega arith in
    let h =
      unchecked-day_number (y - 1900) (m - 1) (d - 1) (omega arith) (omega arith)
        (omega (arith, month_days-le y m)) in
    rw (ey, em, ed) at h

-- For every year, month and day: day_of_week gives the day of the week, from 1 for Sunday to 7, for the dates of
-- 1900 to 2099, counted from the first of January 1900, a Monday, and refuses all else.
pub day_of_week-day_number :
    (y m d : ℕ)
    → day_of_week y m d ≡ (if is_date y m d then some ((day_number y m d + 1) % 7 + 1) else none)
day_of_week-day_number y m d = elim (Bool-cases (is_date y m d)) [
  | inl date ↦ accepts y m d ∙ rw date (ap some (counted y m d date))
  | inr other ↦ accepts y m d ∙ rw other refl
]
