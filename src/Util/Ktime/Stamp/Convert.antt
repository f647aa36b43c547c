-- ===== src/Util/Ktime/Stamp/Convert.antt =====
-- The conversions count seconds.
use m68k_system.Common.{
  ℕ, zero, suc, ◌+◌, ◌-◌, ◌*◌, ◌^◌, ◌≤◌, ◌<◌, ◌≡◌, refl, ap, ◌∙◌, Bool-cases, inl, inr, false, not,
  ltb, ◌==◌, if◌then◌else◌, arith, get_or,
}
use m68k_system.Util.Ktime.{RtcTime}
use m68k_system.Util.Ktime.Calendar.{
  month_days-le, days_of_years, days_of_months, month_days, day_number,
}
use m68k_system.Util.Ktime.Stamp.{
  month_index, year_index, year_time, take_units, split_time, timestamp_to_rtc_time,
}
use m68k_system.Util.Ktime.Stamp.Years.{year_index-Holds}
use m68k_system.Util.Ktime.Stamp.Units.{take_units-Divides}
use m68k_system.Util.Ktime.Stamp.Months.{
  month_offsets, month_index-reached, month_index-next, month_index-le, month_offset-days,
  last_offset, length-month_offsets, days_of_years-months, year_days-le, year_time-start,
  year_time-below,
}

-- The day and the time of day stand for `t` seconds from the start of a month.
pub record Splits (t : ℕ) (dt : RtcTime) : Type 0 where
  pub first : 1 ≤ dt.day
  pub hours : dt.hour < 24
  pub minutes : dt.minute < 60
  pub seconds : dt.second < 60
  pub total : t ≡ 86400 * (dt.day - 1) + 3600 * dt.hour + 60 * dt.minute + dt.second

split_time-Splits : (i month t : ℕ) → t < 86400 * 32 → Splits t (split_time i month t)
unfolding split_time
split_time-Splits i month t h =
    let days = take_units 86400 5 1 t in
    let hours = take_units 3600 5 0 days.1 in
    let (q, e, f, l) = take_units-Divides 86400 5 1 t (omega arith) in
    let (q2, e2, f2, l2) = take_units-Divides 3600 5 0 days.1 (omega arith) in
    let (q3, e3, f3, l3) = take_units-Divides 60 6 0 hours.1 (omega arith) in
    record {
      first = omega arith;
      hours = omega arith;
      minutes = omega arith;
      seconds = omega arith;
      total = omega arith;
    }

-- The time from the start of the month that `month_index` finds.
abbrev month_time : ℕ → ℕ → ℕ
month_time i t =
    let month = month_index (month_offsets i) t in
    if not (month == 0) then t - get_or (month_offsets i) (month - 1) 0 else t

month_in_year : (i t : ℕ) → i < 138 → t < 31622400 → month_index (month_offsets i) t < 12
month_in_year i t h small =
    let le = month_index-le (month_offsets i) t in
    let len = length-month_offsets i in
    elim (Bool-cases (ltb (month_index (month_offsets i) t) 12)) [
      | inl low ↦ ground arith
      | inr high ↦ absurd (
          omega (arith, month_index-reached (month_offsets i) t 11 (ground arith), last_offset i h))
    ]

start_at :
    (i t m : ℕ)
    → i < 138
    → m < 12
    → ((k : ℕ) → k < m → get_or (month_offsets i) k 0 ≤ t)
    → t
      ≡ 86400 * days_of_months (1901 + i) m
        + (if not (m == 0) then t - get_or (month_offsets i) (m - 1) 0 else t)
start_at i t zero h l reached = unfold days_of_months in omega arith
start_at i t (suc k) h l reached =
    let e : k + 1 ≡ suc k = omega arith in
    let d : get_or (month_offsets i) k 0 ≡ 86400 * days_of_months (1901 + i) (suc k) =
      month_offset-days i k h (omega arith) ∙ ap (λ j. 86400 * days_of_months (1901 + i) j) e in
    let later : (suc k == 0) ≡ false = ground arith in
    let before : suc k - 1 ≡ k = omega arith in
    let low = reached k (omega arith) in rw (later, before) (omega arith)

below_at :
    (i t m : ℕ)
    → i < 138
    → m < 12
    → t < get_or (month_offsets i) m 0
    → t < 86400 * days_of_months (1901 + i) 12
    → t < 86400 * days_of_months (1901 + i) (m + 1)
below_at i t m h l next small = elim (Bool-cases (ltb m 11)) [
  | inl early ↦ let d = month_offset-days i m h (ground arith) in omega arith
  | inr late ↦ let e : m + 1 ≡ 12 = ground arith in rw e small
]

-- The days up to a month's end.
next_month : (y m : ℕ) → days_of_months y (m + 1) ≡ days_of_months y m + month_days y (m + 1)
next_month y m = let e : m + 1 ≡ suc m = omega arith in rw e (unfold days_of_months in refl)

-- The result of timestamp_to_rtc_time stands for the timestamp: its months count from 0, its fields
-- are in their ranges, and its seconds since 1900 began are those of the timestamp.
pub record StandsFor (ts : ℕ) (dt : RtcTime) : Type 0 where
  pub years : (1901 ≤ dt.year) × (dt.year ≤ 2038)
  pub months : dt.month < 12
  pub days : (1 ≤ dt.day) × (dt.day ≤ month_days dt.year (dt.month + 1))
  pub times : (dt.hour < 24) × (dt.minute < 60) × (dt.second < 60)
  pub total :
      ts + 61505152
      ≡ 86400 * day_number dt.year (dt.month + 1) dt.day
        + 3600 * dt.hour
        + 60 * dt.minute
        + dt.second

assembled :
    (ts i m t : ℕ)
    → i < 138
    → m < 12
    → ts + 61505152 ≡ 86400 * days_of_years (i + 1) + (86400 * days_of_months (1901 + i) m + t)
    → t < 86400 * month_days (1901 + i) (m + 1)
    → StandsFor ts (split_time i m t)
unfolding split_time
assembled ts i m t h l sum small =
    let s = split_time-Splits i m t (omega (arith, month_days-le (1901 + i) (m + 1))) in
    let year : i + 1901 ≡ 1901 + i = omega arith in
    let years : 1901 + i - 1900 ≡ i + 1 = omega arith in
    let months : m + 1 - 1 ≡ m = omega arith in
    let first = s.first in
    let total = s.total in
    record {
      years = omega arith;
      months = l;
      days = (first, rw year (omega arith));
      times = (s.hours, s.minutes, s.seconds);
      total = rw (year, years, months) (omega arith);
    }

-- For every 32-bit timestamp: timestamp_to_rtc_time gives the date and time that many seconds from
-- the start of 1970, in the years 1901 to 2038, but with its months counted from 0.
pub timestamp_to_rtc_time-StandsFor :
    (ts : ℕ) → ts < 2 ^ 32 → StandsFor ts (timestamp_to_rtc_time ts)
unfolding timestamp_to_rtc_time
timestamp_to_rtc_time-StandsFor ts small =
    let i = year_index ts in
    let t = year_time ts i in
    let y = year_index-Holds ts in
    let h : i < 138 = omega (arith, y.0) in
    let start = year_time-start ts i y in
    let below : t < 86400 * days_of_months (1901 + i) 12 =
      omega (arith, year_time-below ts i small y, days_of_years-months i h) in
    let short : t < 31622400 = omega (arith, year_days-le i h) in
    let m = month_index (month_offsets i) t in
    let l : m < 12 = month_in_year i t h short in
    let from = start_at i t m h l (month_index-reached (month_offsets i) t) in
    let to =
      below_at i t m h l
        (month_index-next (month_offsets i) t (omega (arith, length-month_offsets i))) below in
    assembled ts i m (month_time i t) h l (omega arith)
      (omega (arith, from, to, next_month (1901 + i) m))
