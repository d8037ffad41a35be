-- ===== src/Time/Make.antt =====
-- `mktime` of time.c and the sum of cmos.c on a date that `localtime` found.
use han_os.Base.{ℕ, suc, ◌+◌, ◌*◌, ◌^◌, ◌≤◌, ◌<◌, ◌≡◌, arith, if◌then◌else◌}
use han_os.Cmos.{Rtc, is_leap, pred64, rtc_time}
use han_os.Cmos.Calendar.{
  days_through, days_through-suc, days_through_le, days_before_le, secs_of_years_lem,
  secs_of_month_lem,
}
use han_os.Time.{Tm, localtime, mktime}
use han_os.Time.Local.{DateOf, localtime-DateOf}

-- The registers of a clock that shows the date `tm`, its year in full.
abbrev pub rtc_of : Tm → Rtc
rtc_of tm = record {
  seconds = tm.sec;
  minutes = tm.min;
  hours = tm.hour;
  weekdays = tm.wday;
  day = tm.mday;
  month = tm.mon + 1;
  year = tm.year + 1900;
  century = 20;
}

rtc_time-DateOf : (t : ℕ) (tm : Tm) → DateOf t tm → t < 2 ^ 63 → rtc_time (rtc_of tm) ≡ t
unfolding rtc_time
rtc_time-DateOf t tm d h =
    let y : pred64 (tm.year + 1900) ≡ tm.year + 1899 = omega (arith, d.year_to) in
    let m : pred64 (tm.mon + 1) ≡ tm.mon = omega (arith, d.mon_in) in
    let ys = secs_of_years_lem (tm.year + 1899) (omega (arith, d.year_to)) in
    let ms = secs_of_month_lem tm.mon (tm.year + 1900) (omega (arith, d.mon_in)) in
    rw (y, m, ys, ms) (omega (arith, d, days_before_le tm.mon (tm.year + 1900)))

-- The sum that cmos.c takes of a clock's registers undoes `localtime`: for every time before the
-- year 2100, a clock that shows the date of `localtime` gives that time.
pub rtc_time-localtime :
    (t : ℕ) (tm : Tm) → t < days_through 2099 * 86400 → rtc_time (rtc_of (localtime t tm)) ≡ t
rtc_time-localtime t tm h =
    rtc_time-DateOf t (localtime t tm) (localtime-DateOf t tm h)
      (omega (arith, days_through_le 2099))

mktime-DateOf :
    (t : ℕ) (tm : Tm)
    → DateOf t tm
    → t < 2 ^ 63
    → mktime tm ≡ t + (if is_leap (tm.year + 1900) then 366 else 365) * 86400
unfolding mktime
mktime-DateOf t tm d h =
    let y : tm.year + 1900 ≡ suc (tm.year + 1899) = omega arith in
    let days : ℕ = if is_leap (tm.year + 1900) then 366 else 365 in
    let more : days_through (tm.year + 1900) ≡ days_through (tm.year + 1899) + days =
      rw y (days_through-suc (tm.year + 1899) (omega (arith, d.year_from))) in
    let small : days ≤ 366 = ground arith in
    rw
      (
        secs_of_years_lem (tm.year + 1900) (omega (arith, d.year_to)),
        secs_of_month_lem tm.mon (tm.year + 1900) (omega (arith, d.mon_in)),
        more,
      )
      (omega (arith, small, d.total, d.mday_pos, h))

-- `mktime` does not undo `localtime`: for every time before the year 2100 the result is late by
-- the whole year that the time lies in.
pub mktime-localtime :
    (t : ℕ) (tm : Tm)
    → t < days_through 2099 * 86400
    → mktime (localtime t tm)
      ≡ t + (if is_leap ((localtime t tm).year + 1900) then 366 else 365) * 86400
mktime-localtime t tm h =
    mktime-DateOf t (localtime t tm) (localtime-DateOf t tm h) (omega (arith, days_through_le 2099))
