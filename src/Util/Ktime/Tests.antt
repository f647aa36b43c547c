-- ===== src/Util/Ktime/Tests.antt =====
-- The calendar at dates.
use m68k_system.Common.{◌+◌, ◌%◌, ◌≡◌, refl, some, none, if◌then◌else◌}
use m68k_system.Util.Ktime.{
  RtcTime, rtc_time_from_str, is_leap_year, day_of_week, day_of_week_unchecked, dow_anchor,
}
use m68k_system.Util.Ktime.Calendar.{
  leap_rule, is_date, day_number, is_leap_year-leap_rule, day_of_week-day_number,
}
use m68k_system.Util.Ktime.Reading.{shown, written, IsMoment, rtc_time_from_str-written}
use m68k_system.Util.Ktime.Calendar.{days_of_years, days_of_months}
use m68k_system.Common.{arith, success}

is_leap_year-leap_rule_example : is_leap_year 2000 ≡ leap_rule 2000
is_leap_year-leap_rule_example = is_leap_year-leap_rule 2000

day_of_week-day_number_example :
    day_of_week 2015 6 21
    ≡ (if is_date 2015 6 21 then some ((day_number 2015 6 21 + 1) % 7 + 1) else none)
day_of_week-day_number_example = day_of_week-day_number 2015 6 21

-- The first of January 2000 was a Saturday.
millennium : day_of_week 2000 1 1 ≡ some 7
unfolding day_of_week day_of_week_unchecked dow_anchor
millennium = refl

no_leap_day : day_of_week 1900 2 29 ≡ none
unfolding day_of_week is_leap_year
no_leap_day = refl

abbrev ada : RtcTime
ada = record {
  year = 2015;
  month = 12;
  day = 10;
  hour = 9;
  minute = 8;
  second = 7;
  day_of_week = 5;
}

ada-IsMoment : IsMoment ada
unfolding days_of_years days_of_months
ada-IsMoment = record {
  date = refl;
  times = (omega arith, omega arith, omega arith);
  weekday = refl;
}

rtc_time_from_str-written_example :
    rtc_time_from_str (shown (written ada)) (record ada { year = 1970 }) ≡ (success, ada)
rtc_time_from_str-written_example =
    rtc_time_from_str-written ada (record ada { year = 1970 }) ada-IsMoment
