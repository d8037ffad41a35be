-- ===== src/Time/Tests.antt =====
-- Runs of time.c, and its theorems at a concrete time.
use han_os.Base.{ℕ, ◌+◌, ◌*◌, ◌<◌, ◌≡◌, refl, arith, if◌then◌else◌}
use han_os.Cmos.{rtc_time, is_leap}
use han_os.Cmos.Calendar.{days_through}
use han_os.Time.{Tm, localtime, mktime}
use han_os.Time.Local.{DateOf, localtime-DateOf}
use han_os.Time.Make.{rtc_of, rtc_time-localtime, mktime-localtime}

abbrev blank : Tm
blank = record {
  sec = 0;
  min = 0;
  hour = 0;
  mday = 0;
  mon = 0;
  year = 0;
  wday = 0;
  yday = 0;
  isdst = 0;
}

-- 20 April 2022, 13:14:15
abbrev now : ℕ
now = 1650460455

abbrev date : Tm
date = record {
  sec = 15;
  min = 14;
  hour = 13;
  mday = 20;
  mon = 3;
  year = 122;
  wday = 3;
  yday = 109;
  isdst = 0;
}

in_april_2022 : localtime now blank ≡ date
unfolding localtime han_os.Time.year_loop han_os.Time.year_is_leap han_os.Time.month_loop
    han_os.Time.days_in_month han_os.Time.day_loop han_os.Time.hour_loop han_os.Time.day_of_week
in_april_2022 = refl

days_in_reach : days_through 2099 ≡ 47482
unfolding days_through
days_in_reach = refl

in_reach : now < days_through 2099 * 86400
in_reach = omega (arith, days_in_reach)

localtime-DateOf_example : DateOf now (localtime now blank)
localtime-DateOf_example = localtime-DateOf now blank in_reach

rtc_time-localtime_example : rtc_time (rtc_of (localtime now blank)) ≡ now
rtc_time-localtime_example = rtc_time-localtime now blank in_reach

one_year_late : mktime (localtime now blank) ≡ now + 365 * 86400
unfolding mktime localtime han_os.Cmos.secs_of_years han_os.Cmos.years_loop han_os.Time.year_loop
    han_os.Time.year_is_leap han_os.Time.month_loop han_os.Time.days_in_month han_os.Time.day_loop
    han_os.Time.hour_loop han_os.Cmos.secs_of_month han_os.Cmos.months_loop han_os.Cmos.month_days
one_year_late = refl

mktime-localtime_example :
    mktime (localtime now blank)
    ≡ now + (if is_leap ((localtime now blank).year + 1900) then 366 else 365) * 86400
mktime-localtime_example = mktime-localtime now blank in_reach
