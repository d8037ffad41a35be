-- ===== src/Cmos.antt =====
-- kernel/core/cmos.c: seconds since 1970 from a date, and the real-time clock's registers.
-- The I/O ports are not modelled: what they return is an argument.
pub mod Calendar
pub mod Decode
mod Tests
use han_os.Base.{
  ℕ, zero, suc, ◌+◌, ◌-◌, ◌*◌, ◌/◌, ◌%◌, ◌^◌, Bool, true, false, not, ◌&&◌, ◌||◌, Option, none,
  some, List, [], ◌∷◌, ltb, leb, ◌==◌, if◌then◌else◌, u8, u16, u64, bit_and, bit_or, nonzero,
}

-- The test of `secs_of_years`, as its three nested ifs.
abbrev pub leap_days : ℕ → ℕ
leap_days years =
    if years % 4 == 0
    then (if years % 100 == 0 then (if years % 400 == 0 then 1 else 0) else 1)
    else 0

-- `while (years > 1969) { ... years--; }`
unfoldable pub years_loop : ℕ → ℕ → ℕ
years_loop zero days = days
years_loop (suc y) days =
    let rest = years_loop y (days + 365 + leap_days (suc y)) in
    if ltb 1969 (suc y) then rest else days

unfoldable pub secs_of_years : ℕ → ℕ
secs_of_years years = u64 (years_loop years 0 * 86400)

unfoldable pub is_leap : ℕ → Bool
is_leap year = year % 4 == 0 && (not (year % 100 == 0) || year % 400 == 0)

-- The days that round `i` of `secs_of_month` adds.
unfoldable pub month_days : ℕ → ℕ → ℕ
unfolding is_leap
month_days year i =
    if i == 12 || (i == 10 || (i == 8 || (i == 7 || (i == 5 || (i == 3 || i == 1)))))
    then 31
    else (if i == 11 || (i == 9 || (i == 6 || i == 4))
        then 30
        else (if i == 2 then (if is_leap year then 29 else 28) else 0))

-- `for (i = 1; i <= months; i++)`, by the rounds left
unfoldable pub months_loop : ℕ → ℕ → ℕ → ℕ → ℕ
months_loop zero i year days = days
months_loop (suc n) i year days = months_loop n (i + 1) year (days + month_days year i)

unfoldable pub secs_of_month : ℕ → ℕ → ℕ
secs_of_month months year = u64 (months_loop months 1 year 0 * 86400)

-- `cmos_rtc_t`
pub record Rtc : Type 0 where
  pub seconds : ℕ
  pub minutes : ℕ
  pub hours : ℕ
  pub weekdays : ℕ
  pub day : ℕ
  pub month : ℕ
  pub year : ℕ
  pub century : ℕ

-- `x - 1` of an unsigned field, converted to uint64_t
abbrev pub pred64 : ℕ → ℕ
pred64 x = u64 (x + 2 ^ 64 - 1)

-- The sum that `cmos_init` keeps as the boot time and that `cmos_current_time` returns.
unfoldable pub rtc_time : Rtc → ℕ
rtc_time rtc = u64 (
    secs_of_years (pred64 rtc.year)
    + secs_of_month (pred64 rtc.month) rtc.year
    + u64 (pred64 rtc.day * 86400)
    + rtc.hours * 3600
    + rtc.minutes * 60
    + rtc.seconds)

pub rtc_values_are_not_equal : Rtc → Rtc → Bool
rtc_values_are_not_equal c1 c2 =
    not (c1.seconds == c2.seconds)
    || (not (c1.minutes == c2.minutes)
        || (not (c1.hours == c2.hours)
            || (not (c1.weekdays == c2.weekdays)
                || (not (c1.day == c2.day)
                    || (not (c1.month == c2.month)
                        || (not (c1.year == c2.year) || not (c1.century == c2.century)))))))

-- The do-while of `cmos_read_rtc`: `later` are the sets of registers read, in order, each after the
-- wait for the end of an update; `none` means that the clock never settles within them.
unfoldable pub settle : Rtc → List Rtc → Option Rtc
settle last [] = none
settle last (rtc ∷ later) =
    let rest = settle rtc later in if rtc_values_are_not_equal rtc last then rest else some rtc

-- `(x & 0x0F) + (x / 16) * 10`, stored in a byte
abbrev pub from_bcd : ℕ → ℕ
from_bcd x = u8 (bit_and x 0x0f + x / 16 * 10)

-- hours in BCD, where the top bit is the mark of the afternoon
abbrev pub hours_from_bcd : ℕ → ℕ
hours_from_bcd h = u8 (bit_or (bit_and h 0x0f + bit_and h 0x70 / 16 * 10) (bit_and h 0x80))

abbrev pub current_year : ℕ
current_year = 2022

abbrev pub to_binary : ℕ → Rtc → Rtc
to_binary reg_b rtc =
    if not (nonzero (bit_and reg_b 0x04))
    then record rtc {
      seconds = from_bcd rtc.seconds;
      minutes = from_bcd rtc.minutes;
      hours = hours_from_bcd rtc.hours;
      weekdays = from_bcd rtc.weekdays;
      day = from_bcd rtc.day;
      month = from_bcd rtc.month;
      year = from_bcd rtc.year;
      century = from_bcd rtc.century;
    }
    else rtc

abbrev pub to_24_hours : ℕ → ℕ → ℕ
to_24_hours reg_b hours =
    if not (nonzero (bit_and reg_b 0x02)) && nonzero (bit_and hours 0x80)
    then (bit_and hours 0x7f + 12) % 24
    else hours

abbrev pub full_year : ℕ → ℕ → ℕ → ℕ
full_year century_register century year =
    if ltb year 100
    then (if not (century_register == 0)
        then u16 (year + century * 100)
        else (let y : ℕ = u16 (year + current_year / 100 * 100) in
            if ltb y current_year then u16 (y + 100) else y))
    else year

-- The conversions of `cmos_read_rtc` after the registers have settled.
unfoldable pub decode : ℕ → ℕ → Rtc → Rtc
decode century_register reg_b raw =
    let rtc = to_binary reg_b raw in
    record rtc {
      hours = to_24_hours reg_b rtc.hours;
      year = full_year century_register rtc.century rtc.year;
    }

unfoldable pub cmos_read_rtc : ℕ → ℕ → Rtc → List Rtc → Option Rtc
unfolding settle decode
cmos_read_rtc century_register reg_b first later = elim (settle first later) [
  | none ↦ none
  | some raw ↦ some (decode century_register reg_b raw)
]
