-- ===== src/Util/Ktime/Stamp.antt =====
-- The conversions between timestamps and dates of ayumos/kernel/util/ktime.c. A timestamp is kept as its distance from
-- -2 ^ 31. The loops over the year take fuel, a round for each year of the table.
mod Years
mod Units
mod Months
mod Convert
mod Back
mod Tests
use m68k_system.Common.{
  ℕ, zero, suc, ◌+◌, ◌-◌, ◌*◌, ◌%◌, ◌^◌, Bool, not, ◌&&◌, ◌||◌, Option, none, some, List, [], ◌∷◌,
  ltb, leb, ◌==◌, if◌then◌else◌, get_or, length,
}
use m68k_system.Util.Ktime.{RtcTime, is_leap_year, day_of_week_unchecked}
use m68k_system.Util.Ktime.Tables.{ts_year_offset, ts_month_offset_common, ts_month_offset_leap}

-- g_ts_year_offset[i]
abbrev pub year_offset : ℕ → ℕ
year_offset i = get_or ts_year_offset i 0

-- The search with halving steps: 32, 16, 8, 4, 2 and 1.
pub step_search : List ℕ → ℕ → ℕ → ℕ
step_search [] ts i = i
step_search (step ∷ steps) ts i =
    let lower = step_search steps ts (i - step) in
    let upper = step_search steps ts (i + step) in
    if ltb ts (year_offset i) then lower else if leb (year_offset (i + 1)) ts then upper else i

-- `while((g_ts_year_offset[i] > ts) && i) --i;`, a recursion on `i`.
pub walk_down : ℕ → ℕ → ℕ
walk_down ts zero = zero
walk_down ts (suc i) =
    let rest = walk_down ts i in if ltb ts (year_offset (suc i)) then rest else suc i

-- `while((ts >= g_ts_year_offset[i + 1]) && (i < 137)) ++i;`, with a bound on the rounds.
pub walk_up : ℕ → ℕ → ℕ → ℕ
walk_up zero ts i = i
walk_up (suc rounds) ts i =
    let rest = walk_up rounds ts (i + 1) in
    if leb (year_offset (i + 1)) ts && ltb i (length ts_year_offset - 1) then rest else i

pub year_index : ℕ → ℕ
unfolding step_search walk_down walk_up
year_index ts = walk_up 138 ts (walk_down ts (step_search (32 ∷ 16 ∷ 8 ∷ 4 ∷ 2 ∷ 1 ∷ []) ts 69))

-- `for(month = 0; month_offset[month] <= t; ++month) ;`
pub month_index : List ℕ → ℕ → ℕ
month_index [] t = 0
month_index (offset ∷ offsets) t =
    let rest = month_index offsets t in if leb offset t then suc rest else 0

-- `for(n = 0; step >= 0; --step) if(t >= (unit << step)) { t -= unit << step; n += 1 << step; }`:
-- the count and the rest, for `steps` steps.
pub take_units : ℕ → ℕ → ℕ → ℕ → ℕ × ℕ
take_units unit zero n t = (n, t)
take_units unit (suc step) n t =
    let big = unit * 2 ^ step in
    if leb big t then take_units unit step (n + 2 ^ step) (t - big) else take_units unit step n t

-- The offset into the year; 1901 begins in the table at the earliest timestamp.
pub year_time : ℕ → ℕ → ℕ
year_time ts i = ts - year_offset i + (if i == 0 then 29969152 else 0)

-- The fields from an offset into a month on, for the year 1901 + i and a month counted from 0.
pub split_time : ℕ → ℕ → ℕ → RtcTime
unfolding take_units
split_time i month t =
    let (day, t1) = take_units 86400 5 1 t in
    let (hour, t2) = take_units 3600 5 0 t1 in
    let (minute, t3) = take_units 60 6 0 t2 in
    record {
      year = i + 1901;
      month = month;
      day = day;
      hour = hour;
      minute = minute;
      second = t3;
      day_of_week = day_of_week_unchecked (i + 1901) (month + 1) day;
    }

-- timestamp_to_rtc_time
pub timestamp_to_rtc_time : ℕ → RtcTime
unfolding year_index year_time month_index split_time
timestamp_to_rtc_time ts =
    let i = year_index ts in
    let t = year_time ts i in
    let offsets = if not ((i + 1) % 4 == 0) then ts_month_offset_common else ts_month_offset_leap in
    let month = month_index offsets t in
    split_time i month (if not (month == 0) then t - get_or offsets (month - 1) 0 else t)

-- The dates that rtc_time_to_timestamp refuses as too early or too late.
pub refused : RtcTime → Bool
refused dt =
    (leb dt.year 1901
      && leb dt.month 12
      && leb dt.day 13
      && leb dt.hour 20
      && leb dt.minute 45
      && leb dt.second 52)
    || (leb 2038 dt.year
        && leb 1 dt.month
        && leb 19 dt.day
        && leb 3 dt.hour
        && leb 14 dt.minute
        && leb 7 dt.second)

-- rtc_time_to_timestamp, on 32 bits, for a year of the table; `none` is -EINVAL.
pub rtc_time_to_timestamp : RtcTime → Option ℕ
unfolding refused
rtc_time_to_timestamp dt =
    let offsets = if is_leap_year dt.year then ts_month_offset_leap else ts_month_offset_common in
    let ts =
      year_offset (dt.year - 1901)
      + (if ltb 1 dt.month then get_or offsets (dt.month - 2) 0 else 0) in
    if refused dt
    then none
    else some (
        (ts + 86400 * dt.day + 3600 * dt.hour + 60 * dt.minute + dt.second + 2 ^ 32 - 86400)
        % 2 ^ 32)
