-- ===== src/Time.antt =====
-- kernel/lib/time.c: broken-down time. The fields of `tm_t` are taken as numbers that are not
-- negative, as `localtime` makes them.
pub mod Local
pub mod Make
mod Tests
use han_os.Base.{
  ℕ, zero, suc, ◌+◌, ◌-◌, ◌*◌, ◌/◌, ◌%◌, ◌^◌, Bool, true, false, not, ◌&&◌, ◌||◌, ltb, leb, ◌==◌,
  if◌then◌else◌, u64,
}
use han_os.Cmos.{secs_of_years, secs_of_month}

-- `tm_t`
pub record Tm : Type 0 where
  pub sec : ℕ
  pub min : ℕ
  pub hour : ℕ
  pub mday : ℕ
  pub mon : ℕ
  pub year : ℕ
  pub wday : ℕ
  pub yday : ℕ
  pub isdst : ℕ

unfoldable pub year_is_leap : ℕ → Bool
year_is_leap year = year % 4 == 0 && (not (year % 100 == 0) || year % 400 == 0)

unfoldable pub day_of_week : ℕ → ℕ
day_of_week seconds = (seconds / 86400 + 4) % 7

unfoldable pub days_in_month : ℕ → ℕ → ℕ
unfolding year_is_leap
days_in_month month year =
    if month == 12
      || (month == 10 || (month == 8 || (month == 7 || (month == 5 || (month == 3 || month == 1)))))
    then 31
    else (if month == 11 || (month == 9 || (month == 6 || month == 4))
        then 30
        else (if month == 2 then (if year_is_leap year then 29 else 28) else 0))

-- The four loops of `localtime`, by the rounds left, from the innermost. `t` is `*timep`; a loop
-- that runs out returns what has been written to the struct so far.
module _ (t : ℕ) where
  pub hour_loop : ℕ → ℕ → ℕ → ℕ → Tm → Tm
  hour_loop zero hour year_sec seconds tm = tm
  hour_loop (suc n) hour year_sec seconds tm =
      let rest = hour_loop n (hour + 1) year_sec (seconds + 3600) tm in
      if ltb t (seconds + 3600)
      then record tm {
        hour = hour - 1;
        min = (t - seconds) / 60;
        sec = (t - seconds) % 60;
        wday = day_of_week t;
        yday = (t - year_sec) / 86400;
        isdst = 0;
      }
      else rest

  pub day_loop : ℕ → ℕ → ℕ → ℕ → Tm → Tm
  day_loop zero day year_sec seconds tm = tm
  day_loop (suc n) day year_sec seconds tm =
      let rest = day_loop n (day + 1) year_sec (seconds + 86400) tm in
      let found = hour_loop 24 1 year_sec seconds (record tm { mday = day }) in
      if ltb t (seconds + 86400) then found else rest

  pub month_loop : ℕ → ℕ → ℕ → ℕ → ℕ → Tm → Tm
  month_loop zero month year year_sec seconds tm = tm
  month_loop (suc n) month year year_sec seconds tm =
      let secs = days_in_month month year * 86400 in
      let rest = month_loop n (month + 1) year year_sec (seconds + secs) tm in
      let found =
        day_loop (days_in_month month year) 1 year_sec seconds (record tm { mon = month - 1 }) in
      if ltb t (seconds + secs) then found else rest

  pub year_loop : ℕ → ℕ → ℕ → Tm → Tm
  year_loop zero year seconds tm = tm
  year_loop (suc n) year seconds tm =
      let secs = (if year_is_leap year then 366 else 365) * 86400 in
      let rest = year_loop n (year + 1) (seconds + secs) tm in
      let found = month_loop 12 1 year seconds seconds (record tm { year = year - 1900 }) in
      if ltb t (seconds + secs) then found else rest

-- The years 1970 to 2099.
pub localtime : ℕ → Tm → Tm
localtime t tm = year_loop t 130 1970 0 tm

-- The product by `mday - 1` is an int, and is converted with its sign.
pub mktime : Tm → ℕ
mktime tm = u64 (
    secs_of_years (tm.year + 1900)
    + secs_of_month tm.mon (tm.year + 1900)
    + tm.mday * 86400
    + (2 ^ 64 - 86400)
    + tm.hour * 3600
    + tm.min * 60
    + tm.sec)
