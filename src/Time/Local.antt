-- ===== src/Time/Local.antt =====
-- `localtime` of time.c finds the date: its fields are in range and add up to the given time.
use han_os.Base.{
  ℕ, zero, suc, ◌+◌, ◌-◌, ◌*◌, ◌/◌, ◌%◌, ◌≤◌, ◌<◌, ◌≡◌, refl, ◌∙◌, arith, ltb, ltb→lt,
  if◌then◌else◌, Bool-cases, inl, inr, ap,
}
use han_os.Cmos.{is_leap, month_days}
use han_os.Cmos.Calendar.{
  days_through, days_through-suc, days_through_1969, days_before, days_before-suc, days_before_zero,
  days_before_12,
}
use han_os.Time.{
  Tm, year_is_leap, day_of_week, days_in_month, hour_loop, day_loop, month_loop, year_loop,
  localtime,
}

days_in_month_lem : (m year : ℕ) → days_in_month (m + 1) year ≡ month_days year (1 + m)
unfolding days_in_month month_days
days_in_month_lem m year = let e : m + 1 ≡ 1 + m = omega arith in ap (λ k. month_days year k) e

year_is_leap_lem : (year : ℕ) → year_is_leap year ≡ is_leap year
unfolding year_is_leap is_leap
year_is_leap_lem year = refl

days_before-next :
    (m year : ℕ) → days_before (m + 1) year ≡ days_before m year + days_in_month (m + 1) year
days_before-next m year =
    let e : m + 1 ≡ suc m = omega arith in
    ap (λ k. days_before k year) e ∙ omega (arith, days_before-suc m year, days_in_month_lem m year)

-- What the two inner loops write, for a time `rest` seconds into the month.
abbrev clock : ℕ → ℕ → ℕ → Tm → Tm
clock t year_sec rest tm = record tm {
  hour = rest % 86400 / 3600;
  min = rest % 3600 / 60;
  sec = rest % 60;
  wday = day_of_week t;
  yday = (t - year_sec) / 86400;
  isdst = 0;
}

module _ (t : ℕ) where
  hour_loop_lem :
      (n hour year_sec seconds : ℕ) (tm : Tm)
      → seconds ≤ t
      → t < seconds + n * 3600
      → 0 < hour
      → hour_loop t n hour year_sec seconds tm ≡ record tm {
        hour = hour - 1 + (t - seconds) / 3600;
        min = (t - seconds) % 3600 / 60;
        sec = (t - seconds) % 60;
        wday = day_of_week t;
        yday = (t - year_sec) / 86400;
        isdst = 0;
      }
  unfolding hour_loop
  hour_loop_lem zero hour ys s tm lo hi pos = absurd (omega arith)
  hour_loop_lem (suc n) hour ys s tm lo hi pos = elim (Bool-cases (ltb t (s + 3600))) [
    | inl here ↦ ground arith
    | inr later ↦ rw later (
        hour_loop_lem n (hour + 1) ys (s + 3600) tm (ground arith) (omega arith) (omega arith)
        ∙ ground arith)
  ]

  day_loop_lem :
      (n day year_sec seconds : ℕ) (tm : Tm)
      → seconds ≤ t
      → t < seconds + n * 86400
      → day_loop t n day year_sec seconds tm
        ≡ clock t year_sec (t - seconds) (record tm { mday = day + (t - seconds) / 86400 })
  unfolding day_loop
  day_loop_lem zero day ys s tm lo hi = absurd (omega arith)
  day_loop_lem (suc n) day ys s tm lo hi = elim (Bool-cases (ltb t (s + 86400))) [
    | inl here ↦ rw here (
        hour_loop_lem 24 1 ys s (record tm { mday = day }) lo (ground arith) (omega arith)
        ∙ ground arith)
    | inr later ↦
        rw later
          (day_loop_lem n (day + 1) ys (s + 86400) tm (ground arith) (omega arith) ∙ ground arith)
  ]

  -- The fields below the year, for a year that begins at `year_sec`.
  record InYear (year year_sec : ℕ) (tm : Tm) : Type 0 where
    mon_in : tm.mon < 12
    mday_pos : 0 < tm.mday
    mday_in : tm.mday ≤ days_in_month (tm.mon + 1) year
    hour_in : tm.hour < 24
    min_in : tm.min < 60
    sec_in : tm.sec < 60
    total :
        year_sec
          + (days_before tm.mon year + tm.mday - 1) * 86400
          + tm.hour * 3600
          + tm.min * 60
          + tm.sec
        ≡ t
    wday_is : tm.wday ≡ (t / 86400 + 4) % 7
    yday_is : tm.yday ≡ days_before tm.mon year + tm.mday - 1
    isdst_is : tm.isdst ≡ 0

  month_loop_lem :
      (n m year year_sec seconds : ℕ) (tm : Tm)
      → m + n ≡ 12
      → seconds ≡ year_sec + days_before m year * 86400
      → seconds ≤ t
      → t < year_sec + days_before 12 year * 86400
      → InYear year year_sec (month_loop t n (m + 1) year year_sec seconds tm)
        × ((month_loop t n (m + 1) year year_sec seconds tm).year ≡ tm.year)
  unfolding month_loop day_of_week
  month_loop_lem zero m year ys s tm e start lo hi =
      let end : m ≡ 12 = omega arith in absurd (omega (arith, ap (λ k. days_before k year) end))
  month_loop_lem (suc n) m year ys s tm e start lo hi =
      elim (Bool-cases (ltb t (s + days_in_month (m + 1) year * 86400))) [
        | inl here ↦
            let back : m + 1 - 1 ≡ m = omega arith in
            let inside = ltb→lt _ _ here in
            rw
              (
                here,
                day_loop_lem (days_in_month (m + 1) year) 1 ys s (record tm { mon = m + 1 - 1 }) lo
                    (ltb→lt _ _ here),
              )
              (
                record {
                  mon_in = omega arith;
                  mday_pos = omega arith;
                  mday_in = rw back (omega arith);
                  hour_in = omega arith;
                  min_in = omega arith;
                  sec_in = omega arith;
                  total = rw back (omega arith);
                  wday_is = refl;
                  yday_is = rw back (omega arith);
                  isdst_is = refl;
                },
                refl,
              )
        | inr later ↦ rw later (
            month_loop_lem n (m + 1) year ys _ tm (omega arith)
              (omega (arith, days_before-next m year)) (ground arith) hi)
      ]

  -- The date of a time `t`: the fields are in range and add up to it.
  pub record DateOf (tm : Tm) : Type 0 where
    pub year_from : 70 ≤ tm.year
    pub year_to : tm.year < 200
    pub mon_in : tm.mon < 12
    pub mday_pos : 0 < tm.mday
    pub mday_in : tm.mday ≤ days_in_month (tm.mon + 1) (tm.year + 1900)
    pub hour_in : tm.hour < 24
    pub min_in : tm.min < 60
    pub sec_in : tm.sec < 60
    pub total :
        (days_through (tm.year + 1899) + days_before tm.mon (tm.year + 1900) + tm.mday - 1) * 86400
          + tm.hour * 3600
          + tm.min * 60
          + tm.sec
        ≡ t
    pub wday_is : tm.wday ≡ (t / 86400 + 4) % 7
    pub yday_is : tm.yday ≡ days_before tm.mon (tm.year + 1900) + tm.mday - 1
    pub isdst_is : tm.isdst ≡ 0

  -- The year found, the date within it is that of `t`.
  DateOf-year :
      (year year_sec : ℕ) (tm : Tm)
      → year ≡ tm.year + 1900
      → year_sec ≡ days_through (tm.year + 1899) * 86400
      → 70 ≤ tm.year
      → tm.year < 200
      → InYear year year_sec tm
      → DateOf tm
  DateOf-year year ys tm e start lo hi d =
      let in_month : tm.mday ≤ days_in_month (tm.mon + 1) (tm.year + 1900) = rw e at d.mday_in in
      let before : days_before tm.mon year ≡ days_before tm.mon (tm.year + 1900) =
        ap (days_before tm.mon) e in
      record {
        year_from = lo;
        year_to = hi;
        mon_in = d.mon_in;
        mday_pos = d.mday_pos;
        mday_in = in_month;
        hour_in = d.hour_in;
        min_in = d.min_in;
        sec_in = d.sec_in;
        total = omega (arith, d.total, d.mday_pos, before);
        wday_is = d.wday_is;
        yday_is = omega (arith, d.yday_is, before);
        isdst_is = d.isdst_is;
      }

  year_loop_lem :
      (n y seconds : ℕ) (tm : Tm)
      → y + n ≡ 2099
      → 1969 ≤ y
      → seconds ≡ days_through y * 86400
      → seconds ≤ t
      → t < days_through 2099 * 86400
      → DateOf (year_loop t n (suc y) seconds tm)
  unfolding year_loop
  year_loop_lem zero y s tm e from start lo hi =
      let end : y ≡ 2099 = omega arith in absurd (omega (arith, ap days_through end))
  year_loop_lem (suc n) y s tm e from start lo hi =
      let days : ℕ = if year_is_leap (suc y) then 366 else 365 in
      let more : days_through (suc y) ≡ days_through y + days =
        rw (year_is_leap_lem (suc y)) (days_through-suc y from) in
      elim (Bool-cases (ltb t (s + days * 86400))) [
        | inl here ↦
            let tm' : Tm = record tm { year = suc y - 1900 } in
            let full : days_before 12 (suc y) ≡ days =
              days_before_12 (suc y) ∙ rw (year_is_leap_lem (suc y)) in
            let (found, same_year) =
              month_loop_lem 12 0 (suc y) s s tm' (omega arith)
                (omega (arith, days_before_zero (suc y))) lo (omega (arith, ltb→lt _ _ here)) in
            let out = month_loop t 12 1 (suc y) s s tm' in
            let back : out.year + 1899 ≡ y = omega arith in
            rw here (
              DateOf-year (suc y) s out (omega arith) (rw back start) (omega arith) (omega arith)
                found)
        | inr later ↦
            let next : suc y + 1 ≡ suc (suc y) = omega arith in
            rw (later, next)
              (year_loop_lem n (suc y) (s + days * 86400) tm (omega arith) (omega arith)
                (omega arith) (ground arith) hi)
      ]

-- For every time before the year 2100, `localtime` writes the date of that time: every field is in
-- its range, the fields add up to the time, and the day of the week and of the year are right,
-- whatever the struct held before.
pub localtime-DateOf : (t : ℕ) (tm : Tm) → t < days_through 2099 * 86400 → DateOf t (localtime t tm)
unfolding localtime
localtime-DateOf t tm h =
    year_loop_lem t 130 1969 0 tm (omega arith) (omega arith)
      (omega (arith, days_through_1969 1969 (omega arith))) (omega arith) h
