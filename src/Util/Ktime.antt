-- ===== src/Util/Ktime.antt =====
-- Dates and timestamps of ayumos/kernel/util/ktime.c. Fields and years are numbers from 0; the tables
-- are lists, and an index beyond the end gives 0.
pub mod Tables
pub mod Calendar
pub mod Stamp
mod Reading
mod Tests
use m68k_system.Common.{
  ℕ, zero, suc, ◌+◌, ◌-◌, ◌*◌, ◌/◌, ◌%◌, Bool, true, false, not, ◌&&◌, ◌||◌, Option, none, some,
  List, [], ◌∷◌, ltb, leb, ◌==◌, if◌then◌else◌, get_or, length, Code, success, einval,
}
use m68k_system.Util.Ktime.Tables.{
  dow_common_year_table, dow_leap_year_table, dow_month_table, days_in_month_leap,
}

-- `rtc_time_t`, without its unused field `dst`.
pub record RtcTime : Type 0 where
  pub year : ℕ
  pub month : ℕ
  pub day : ℕ
  pub hour : ℕ
  pub minute : ℕ
  pub second : ℕ
  pub day_of_week : ℕ

-- is_leap_year
unfoldable pub is_leap_year : ℕ → Bool
is_leap_year year = not (not (year % 4 == 0) || ((year % 100 == 0) && not (year % 400 == 0)))

-- `if(x >= k) x -= k;`
abbrev pub drop_at : ℕ → ℕ → ℕ
drop_at k x = if leb k x then x - k else x

-- The sum `a` of day_of_week_unchecked without the day.
unfoldable pub dow_anchor : ℕ → ℕ → ℕ
dow_anchor year month =
    let a = if leb 2000 year then 6 else 0 in
    let b = drop_at 28 (drop_at 56 (if leb 2000 year then year - 2000 else year - 1900)) in
    let y =
      if not (year == 1900) && (year % 4 == 0) && ltb month 3
      then get_or dow_leap_year_table (b / 4) 0
      else get_or dow_common_year_table b 0 in
    a + y + get_or dow_month_table (month - 1) 0

-- day_of_week_unchecked
unfoldable pub day_of_week_unchecked : ℕ → ℕ → ℕ → ℕ
day_of_week_unchecked year month day =
    drop_at 7 (drop_at 14 (drop_at 28 (dow_anchor year month + day))) + 1

-- day_of_week; `none` is the -1 of a date that is not valid.
unfoldable pub day_of_week : ℕ → ℕ → ℕ → Option ℕ
day_of_week year month day =
    if ltb year 1900
      || ltb 2099 year
      || ltb month 1
      || ltb 12 month
      || ltb day 1
      || ltb (get_or days_in_month_leap (month - 1) 0) day
      || ((month == 2) && (day == 29) && not (is_leap_year year))
    then none
    else some (day_of_week_unchecked year month day)

-- VALID_RTC_DATE
unfoldable pub valid_rtc_date : RtcTime → Bool
valid_rtc_date d =
    ltb d.year 2200
    && leb 1900 d.year
    && ltb 0 d.month
    && ltb d.month 13
    && ltb 0 d.day
    && ltb d.day 32
    && ltb d.hour 24
    && ltb d.minute 60
    && ltb d.second 60
    && ltb 0 d.day_of_week
    && ltb d.day_of_week 8

-- The loop of rtc_time_from_str: the values of the digits, `none` where a byte is no digit.
unfoldable pub digits : List ℕ → Option (List ℕ)
digits [] = some []
digits (c ∷ cs) =
    if leb b'0' c && leb c b'9'
    then elim (digits cs) [ none ↦ none | some ds ↦ some ((c - b'0') ∷ ds) ]
    else none

-- The fields that fourteen digits stand for. `(u8) -1` is stored for the day of a date that is not valid.
unfoldable pub fields : List ℕ → RtcTime
fields s =
    let d = λ (i : ℕ). get_or s i 0 in
    let year = d 0 * 1000 + d 1 * 100 + d 2 * 10 + d 3 in
    let month = d 4 * 10 + d 5 in
    let day = d 6 * 10 + d 7 in
    record {
      year = year;
      month = month;
      day = day;
      hour = d 8 * 10 + d 9;
      minute = d 10 * 10 + d 11;
      second = d 12 * 10 + d 13;
      day_of_week = elim (day_of_week year month day) [ none ↦ 255 | some w ↦ w ];
    }

-- rtc_time_from_str; where it fails early, `tm` is as it was.
unfoldable pub rtc_time_from_str : List ℕ → RtcTime → Code × RtcTime
rtc_time_from_str str tm = if not (length str == 14) then (einval, tm) else elim (digits str) [
  | none ↦ (einval, tm)
  | some s ↦ (if valid_rtc_date (fields s) then success else einval, fields s)
]
