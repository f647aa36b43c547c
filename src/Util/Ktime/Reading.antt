-- ===== src/Util/Ktime/Reading.antt =====
-- rtc_time_from_str reads what a date is written as.
use m68k_system.Common.{
  ℕ, ◌+◌, ◌-◌, ◌*◌, ◌/◌, ◌%◌, ◌≤◌, ◌<◌, ◌≡◌, refl, true, some, List, [], ◌∷◌, leb, ◌&&◌, arith,
  success,
}
use m68k_system.Util.Ktime.{RtcTime, digits, fields, valid_rtc_date, rtc_time_from_str}
use m68k_system.Util.Ktime.Calendar.{
  is_date, day_number, month_days, month_days-le, range_of_tests, day_of_week-day_number,
}

-- Digits, and the characters that show them.
abbrev AreDigits : List ℕ → Type 0
AreDigits [] = Unit {0}
AreDigits (x ∷ xs) = (x < 10) × AreDigits xs

abbrev pub shown : List ℕ → List ℕ
shown [] = []
shown (x ∷ xs) = (b'0' + x) ∷ shown xs

digits-shown : (xs : List ℕ) → AreDigits xs → digits (shown xs) ≡ some xs
unfolding digits
digits-shown [] h = refl
digits-shown (x ∷ xs) h =
    let low = h.0 in
    let digit : (leb b'0' (b'0' + x) && leb (b'0' + x) b'9') ≡ true = ground arith in
    let value : b'0' + x - b'0' ≡ x = omega arith in rw (digit, digits-shown xs h.1, value) refl

-- Two digits for each number: the fourteen digits of a date and time.
abbrev twos : List ℕ → List ℕ
twos [] = []
twos (n ∷ ns) = n / 10 ∷ n % 10 ∷ twos ns

abbrev pub written : RtcTime → List ℕ
written t = twos (t.year / 100 ∷ t.year % 100 ∷ t.month ∷ t.day ∷ t.hour ∷ t.minute ∷ t.second ∷ [])

abbrev AreShort : List ℕ → Type 0
AreShort [] = Unit {0}
AreShort (n ∷ ns) = (n < 100) × AreShort ns

twos-AreDigits : (ns : List ℕ) → AreShort ns → AreDigits (twos ns)
twos-AreDigits [] h = tt
twos-AreDigits (n ∷ ns) h = let low = h.0 in (omega arith, (omega arith, twos-AreDigits ns h.1))

pub record IsMoment (t : RtcTime) : Type 0 where
  pub date : is_date t.year t.month t.day ≡ true
  pub times : (t.hour < 24) × (t.minute < 60) × (t.second < 60)
  pub weekday : t.day_of_week ≡ (day_number t.year t.month t.day + 1) % 7 + 1

fields-written : (t : RtcTime) → IsMoment t → fields (written t) ≡ t
unfolding fields
fields-written t is =
    let year : t.year / 100 / 10 * 1000
          + t.year / 100 % 10 * 100
          + t.year % 100 / 10 * 10
          + t.year % 100 % 10
        ≡ t.year =
      omega arith in
    rw
      (
        year,
        join t.month,
        join t.day,
        join t.hour,
        join t.minute,
        join t.second,
        day_of_week-day_number t.year t.month t.day,
        is.date,
        ← is.weekday,
      )
      refl
  where
    join : (n : ℕ) → n / 10 * 10 + n % 10 ≡ n
    join n = omega arith

abbrev Ranges : RtcTime → Type 0
Ranges t =
    (1900 ≤ t.year)
    × (t.year < 2100)
    × (1 ≤ t.month)
    × (t.month ≤ 12)
    × (1 ≤ t.day)
    × (t.day ≤ 31)
    × (t.hour < 24)
    × (t.minute < 60)
    × (t.second < 60)

moment-Ranges : (t : RtcTime) → IsMoment t → Ranges t
moment-Ranges t is =
    let (ylo, yhi, mlo, mhi, dlo, dhi) =
      range_of_tests t.year t.month t.day (month_days t.year t.month) is.date in
    (
      ylo,
      yhi,
      mlo,
      mhi,
      dlo,
      omega (arith, month_days-le t.year t.month),
      is.times.0,
      is.times.1,
      is.times.2,
    )

written-AreDigits : (t : RtcTime) → Ranges t → AreDigits (written t)
written-AreDigits t (ylo, yhi, mlo, mhi, dlo, dhi, h, m, s) =
    twos-AreDigits
      (t.year / 100 ∷ t.year % 100 ∷ t.month ∷ t.day ∷ t.hour ∷ t.minute ∷ t.second ∷ [])
      (
        omega arith,
        (
          omega arith,
          (omega arith, (omega arith, (omega arith, (omega arith, (omega arith, tt))))),
        ),
      )

moment_valid :
    (t : RtcTime) → Ranges t → 1 ≤ t.day_of_week → t.day_of_week < 8 → valid_rtc_date t ≡ true
unfolding valid_rtc_date
moment_valid t (ylo, yhi, mlo, mhi, dlo, dhi, h, m, s) lo hi = ground arith

-- For every date from 1900 to 2099 with its day of the week, and every time of the day: rtc_time_from_str reads its
-- fourteen digits back, whatever stood in the structure before.
pub rtc_time_from_str-written :
    (t tm : RtcTime) → IsMoment t → rtc_time_from_str (shown (written t)) tm ≡ (success, t)
unfolding rtc_time_from_str
rtc_time_from_str-written t tm is =
    let r = moment-Ranges t is in
    let w = is.weekday in
    rw
      (
        digits-shown (written t) (written-AreDigits t r),
        fields-written t is,
        moment_valid t r (omega arith) (omega arith),
      )
      refl
