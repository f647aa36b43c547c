-- ===== src/Util/Ktime/Stamp/Back.antt =====
-- From a date back to its timestamp.
use m68k_system.Common.{
  ℕ, ◌+◌, ◌-◌, ◌*◌, ◌^◌, ◌≤◌, ◌<◌, ◌≡◌, ◌∙◌, refl, ap, Bool-cases, inl, inr, true, false, ltb, leb,
  ◌==◌, if◌then◌else◌, arith, List, get_or, some, all_below, all_below_sound, eq_of_eqb, le_of_leb,
}
use m68k_system.Util.Ktime.{RtcTime, is_leap_year}
use m68k_system.Util.Ktime.Tables.{ts_month_offset_common, ts_month_offset_leap}
use m68k_system.Util.Ktime.Calendar.{
  days_of_years, days_of_months, month_days, month_days-le, day_number, table_entry,
}
use m68k_system.Util.Ktime.Stamp.{
  year_offset, refused, timestamp_to_rtc_time, rtc_time_to_timestamp,
}
use m68k_system.Util.Ktime.Stamp.Years.{year_offset-days}
use m68k_system.Util.Ktime.Stamp.Convert.{timestamp_to_rtc_time-StandsFor}

abbrev offsets_of : ℕ → List ℕ
offsets_of y = if is_leap_year y then ts_month_offset_leap else ts_month_offset_common

leap_table :
    all_below 137 (λ i.
      all_below 11
        (λ k. get_or (offsets_of (1901 + i)) k 0 == 86400 * days_of_months (1901 + i) (k + 1)))
    ≡ true
unfolding all_below days_of_months is_leap_year
leap_table = refl

early_table : all_below 136 (λ i. leb (year_offset (i + 1)) 4261864448) ≡ true
unfolding all_below
early_table = refl

low_table :
    all_below 137 (λ i. all_below 11 (λ k. leb (get_or (offsets_of (1901 + i)) k 0) 28944000))
    ≡ true
unfolding all_below is_leap_year
low_table = refl

-- A date and time of the years 1902 to 2037, its months counted from 1.
pub record IsStampable (dt : RtcTime) : Type 0 where
  pub years : (1902 ≤ dt.year) × (dt.year ≤ 2037)
  pub months : (1 ≤ dt.month) × (dt.month ≤ 12)
  pub days : (1 ≤ dt.day) × (dt.day ≤ month_days dt.year dt.month)
  pub times : (dt.hour < 24) × (dt.minute < 60) × (dt.second < 60)

-- The offset that the code adds for a month.
abbrev added : ℕ → ℕ → ℕ
added y month = if ltb 1 month then get_or (offsets_of y) (month - 2) 0 else 0

added-days :
    (i month : ℕ)
    → i < 137
    → 1 ≤ month
    → month ≤ 12
    → (added (1901 + i) month ≡ 86400 * days_of_months (1901 + i) (month - 1))
      × (added (1901 + i) month ≤ 28944000)
added-days i month h lo hi = elim (Bool-cases (ltb 1 month)) [
  | inl later ↦
      let k : month - 2 < 11 = omega arith in
      let e : month - 2 + 1 ≡ month - 1 = ground arith in
      let d = eq_of_eqb _ _ (
        table_entry i (month - 2)
          (λ i k. get_or (offsets_of (1901 + i)) k 0 == 86400 * days_of_months (1901 + i) (k + 1))
          137 11 leap_table h k) in
      let b = le_of_leb _ _ (
        table_entry i (month - 2) (λ i k. leb (get_or (offsets_of (1901 + i)) k 0) 28944000) 137 11
          low_table h k) in
      rw later (d ∙ ap (λ j. 86400 * days_of_months (1901 + i) j) e, b)
  | inr january ↦
      let e : month - 1 ≡ 0 = ground arith in
      rw (january, e) (unfold days_of_months in refl, omega arith)
]

accepted : (dt : RtcTime) → 1902 ≤ dt.year → dt.year ≤ 2037 → refused dt ≡ false
unfolding refused
accepted dt lo hi =
    let early : leb dt.year 1901 ≡ false = ground arith in
    let late : leb 2038 dt.year ≡ false = ground arith in rw (early, late) refl

-- For every date and time of the years 1902 to 2037: rtc_time_to_timestamp gives the number of seconds
-- from the start of 1970 to it.
pub rtc_time_to_timestamp-day_number :
    (dt : RtcTime)
    → IsStampable dt
    → (ts : ℕ) × (rtc_time_to_timestamp dt ≡ some ts)
      × (ts + 61505152
          ≡ 86400 * day_number dt.year dt.month dt.day
            + 3600 * dt.hour
            + 60 * dt.minute
            + dt.second)
unfolding rtc_time_to_timestamp
rtc_time_to_timestamp-day_number dt is =
    let (ylo, yhi) = is.years in
    let (mlo, mhi) = is.months in
    let (dlo, dhi) = is.days in
    let (hours, minutes, seconds) = is.times in
    let i = dt.year - 1902 in
    let year : 1901 + (i + 1) ≡ dt.year = omega arith in
    let index : dt.year - 1901 ≡ i + 1 = omega arith in
    let count : i + 2 ≡ dt.year - 1900 = omega arith in
    let start = year_offset-days i (omega arith) ∙ ap (λ j. 86400 * days_of_years j) count in
    let early = le_of_leb _ _ (
      all_below_sound 136 (λ i. leb (year_offset (i + 1)) 4261864448) i early_table
        (omega arith)) in
    let m0 = added-days (i + 1) dt.month (omega arith) mlo mhi in
    let m : (added dt.year dt.month ≡ 86400 * days_of_months dt.year (dt.month - 1))
        × (added dt.year dt.month ≤ 28944000) =
      rw year at m0 in
    let (add, low) = m in
    let short = month_days-le dt.year dt.month in
    let v =
      year_offset (i + 1)
      + added dt.year dt.month
      + 86400 * (dt.day - 1)
      + 3600 * dt.hour
      + 60 * dt.minute
      + dt.second in
    (v, rw (accepted dt ylo yhi, index) (ap some (omega arith)), omega arith)

-- For every 32-bit timestamp that falls into the years 1902 to 2037: rtc_time_to_timestamp gives it back from
-- what timestamp_to_rtc_time makes of it, once one is added to the month.
pub rtc_time_to_timestamp-timestamp_to_rtc_time :
    (ts : ℕ)
    → ts < 2 ^ 32
    → 1902 ≤ (timestamp_to_rtc_time ts).year
    → (timestamp_to_rtc_time ts).year ≤ 2037
    → rtc_time_to_timestamp
        (record (timestamp_to_rtc_time ts) { month = (timestamp_to_rtc_time ts).month + 1 })
      ≡ some ts
rtc_time_to_timestamp-timestamp_to_rtc_time ts small lo hi =
    let dt = timestamp_to_rtc_time ts in
    let s = timestamp_to_rtc_time-StandsFor ts small in
    let months = s.months in
    let (ts', e, total) =
      rtc_time_to_timestamp-day_number (record dt { month = dt.month + 1 })
        (record {
          years = (lo, hi);
          months = (omega arith, omega arith);
          days = s.days;
          times = s.times;
        }) in
    let total' = s.total in e ∙ ap some (omega arith)
