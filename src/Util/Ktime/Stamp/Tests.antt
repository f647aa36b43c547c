-- ===== src/Util/Ktime/Stamp/Tests.antt =====
-- The conversions at dates.
use m68k_system.Common.{ℕ, ◌+◌, ◌*◌, ◌≡◌, refl, arith, some}
use m68k_system.Util.Ktime.{RtcTime, day_of_week_unchecked, dow_anchor, is_leap_year}
use m68k_system.Util.Ktime.Tables.{after}
use m68k_system.Util.Ktime.Calendar.{day_number}
use m68k_system.Util.Ktime.Stamp.{timestamp_to_rtc_time, rtc_time_to_timestamp}
use m68k_system.Util.Ktime.Stamp.Convert.{StandsFor, timestamp_to_rtc_time-StandsFor}
use m68k_system.Util.Ktime.Stamp.Back.{
  IsStampable, rtc_time_to_timestamp-day_number, rtc_time_to_timestamp-timestamp_to_rtc_time,
}

-- 2015-06-21 12:34:56
abbrev solstice : ℕ
solstice = after 1434890096

abbrev solstice_date : RtcTime
solstice_date = record {
  year = 2015;
  month = 6;
  day = 21;
  hour = 12;
  minute = 34;
  second = 56;
  day_of_week = 1;
}

solstice-IsStampable : IsStampable solstice_date
solstice-IsStampable = record {
  years = (omega arith, omega arith);
  months = (omega arith, omega arith);
  days = (omega arith, omega arith);
  times = (omega arith, omega arith, omega arith);
}

timestamp_to_rtc_time-StandsFor_example : StandsFor solstice (timestamp_to_rtc_time solstice)
timestamp_to_rtc_time-StandsFor_example = timestamp_to_rtc_time-StandsFor solstice (omega arith)

rtc_time_to_timestamp-day_number_example :
    (ts : ℕ) × (rtc_time_to_timestamp solstice_date ≡ some ts)
    × (ts + 61505152 ≡ 86400 * day_number 2015 6 21 + 3600 * 12 + 60 * 34 + 56)
rtc_time_to_timestamp-day_number_example =
    rtc_time_to_timestamp-day_number solstice_date solstice-IsStampable

abbrev again : RtcTime
again = record (timestamp_to_rtc_time solstice) {
  month = (timestamp_to_rtc_time solstice).month + 1;
}

rtc_time_to_timestamp-timestamp_to_rtc_time_example : rtc_time_to_timestamp again ≡ some solstice
rtc_time_to_timestamp-timestamp_to_rtc_time_example =
    rtc_time_to_timestamp-timestamp_to_rtc_time solstice (omega arith)
      (unfold timestamp_to_rtc_time in omega arith) (unfold timestamp_to_rtc_time in omega arith)

-- The month of June is given as 5.
june : timestamp_to_rtc_time solstice ≡ record solstice_date { month = 5 }
unfolding timestamp_to_rtc_time day_of_week_unchecked dow_anchor
june = refl

-- The first second of 14 December 1901 is taken for 25 November 1902, 20:45:52.
last_1901 :
    rtc_time_to_timestamp (record {
      year = 1901;
      month = 12;
      day = 14;
      hour = 0;
      minute = 0;
      second = 0;
      day_of_week = 7;
    })
    ≡ some 29980800
unfolding rtc_time_to_timestamp is_leap_year
last_1901 = refl
