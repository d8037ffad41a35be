-- ===== src/Cmos/Tests.antt =====
-- Runs of cmos.c, and its theorems at concrete inputs.
use han_os.Base.{◌*◌, ◌≡◌, refl, true, arith, some, [], ◌∷◌}
use han_os.Cmos.{Rtc, secs_of_years, secs_of_month, rtc_time, settle, decode, cmos_read_rtc}
use han_os.Cmos.Decode.{encode, decode-encode, decode-hours_12}

-- 20 April 2022, 13:14:15, a Wednesday
abbrev reading : Rtc
reading = record {
  seconds = 15;
  minutes = 14;
  hours = 13;
  weekdays = 4;
  day = 20;
  month = 4;
  year = 2022;
  century = 20;
}

-- the same, one second earlier
abbrev before : Rtc
before = record reading { seconds = 14 }

reading_time : rtc_time reading ≡ 1650460455
unfolding rtc_time secs_of_years han_os.Cmos.years_loop secs_of_month han_os.Cmos.months_loop
    han_os.Cmos.month_days
reading_time = refl

leap_year : (secs_of_years 2000 ≡ 11323 * 86400) × (secs_of_month 2 2000 ≡ 60 * 86400)
unfolding secs_of_years secs_of_month han_os.Cmos.years_loop han_os.Cmos.months_loop
    han_os.Cmos.month_days
leap_year = (refl, refl)

settled : settle before (reading ∷ reading ∷ []) ≡ some reading
unfolding settle han_os.Cmos.rtc_values_are_not_equal
settled = refl

read_24_hours :
    cmos_read_rtc 0x32 2 (encode before) (encode reading ∷ encode reading ∷ []) ≡ some reading
unfolding cmos_read_rtc han_os.Cmos.rtc_values_are_not_equal
read_24_hours = refl

decode-encode_example : decode 0 2 (encode reading) ≡ reading
decode-encode_example = decode-encode 2 reading refl (omega arith) (record {
  seconds_in = omega arith;
  minutes_in = omega arith;
  hours_in = omega arith;
  weekdays_in = omega arith;
  day_in = omega arith;
  month_in = omega arith;
  century_in = omega arith;
  year_from = omega arith;
  year_below = omega arith;
})

-- noon
decode-hours_12_example : (decode 0x32 0 (record reading { hours = 0x92 })).hours ≡ 0
decode-hours_12_example =
    decode-hours_12 0x32 0 12 true (record reading { hours = 0x92 }) refl refl (omega arith)
      (omega arith) refl
