-- ===== src/Cmos/Calendar.antt =====
-- `secs_of_years` and `secs_of_month` of cmos.c as sums over the years and the months.
use han_os.Base.{
  ℕ, zero, suc, ◌+◌, ◌*◌, ◌^◌, ◌≤◌, ◌<◌, ◌≡◌, refl, ◌∙◌, true, false, arith, ltb, if◌then◌else◌,
  u64, Bool-cases, inl, inr, ap,
}
use han_os.Cmos.{
  leap_days, years_loop, secs_of_years, is_leap, month_days, months_loop, secs_of_month,
}

-- The days of the years 1970 to `year`.
unfoldable pub days_through : ℕ → ℕ
unfolding years_loop
days_through year = years_loop year 0

years_loop-add : (y d e : ℕ) → years_loop y (d + e) ≡ years_loop y d + e
unfolding years_loop
years_loop-add zero d e = refl
years_loop-add (suc y) d e = elim (Bool-cases (ltb 1969 (suc y))) [
  | inl h ↦
      rw h (ap (years_loop y) (omega arith) ∙ years_loop-add y (d + 365 + leap_days (suc y)) e)
  | inr h ↦ rw h
]

pub leap_days_lem : (y : ℕ) → leap_days y ≡ (if is_leap y then 1 else 0)
unfolding is_leap
leap_days_lem y = ground arith

pub days_through-suc :
    (y : ℕ)
    → 1969 ≤ y
    → days_through (suc y) ≡ days_through y + (if is_leap (suc y) then 366 else 365)
unfolding days_through years_loop
days_through-suc y h =
    let test : ltb 1969 (suc y) ≡ true = ground arith in
    rw test (
      ap (years_loop y) (omega arith)
      ∙ years_loop-add y 0 (365 + leap_days (suc y))
      ∙ ground (arith, leap_days_lem (suc y)))

pub days_through_1969 : (y : ℕ) → y ≤ 1969 → days_through y ≡ 0
unfolding days_through years_loop
days_through_1969 zero h = refl
days_through_1969 (suc y) h = let test : ltb 1969 (suc y) ≡ false = ground arith in rw test

pub days_through_le : (y : ℕ) → days_through y ≤ 366 * y
days_through_le zero = omega (arith, days_through_1969 0 (omega arith))
days_through_le (suc y) = elim (Bool-cases (ltb 1968 y)) [
  | inl h ↦ ground (arith, days_through-suc y (ground arith), days_through_le y)
  | inr h ↦ omega (arith, days_through_1969 (suc y) (ground arith))
]

secs_of_years_days : (year : ℕ) → secs_of_years year ≡ u64 (days_through year * 86400)
unfolding secs_of_years days_through
secs_of_years_days year = refl

-- `secs_of_years` is the number of seconds of the years 1970 to `year`, while it fits 64 bits.
pub secs_of_years_lem : (year : ℕ) → year < 2 ^ 32 → secs_of_years year ≡ days_through year * 86400
secs_of_years_lem year h = omega (arith, secs_of_years_days year, days_through_le year)

-- The days of the first `months` months of `year`.
unfoldable pub days_before : ℕ → ℕ → ℕ
unfolding months_loop
days_before months year = months_loop months 1 year 0

months_loop-add : (n i year d e : ℕ) → months_loop n i year (d + e) ≡ months_loop n i year d + e
unfolding months_loop
months_loop-add zero i year d e = refl
months_loop-add (suc n) i year d e =
    ap (months_loop n (i + 1) year) (omega arith)
    ∙ months_loop-add n (i + 1) year (d + month_days year i) e

months_loop-suc :
    (n i year d : ℕ)
    → months_loop (suc n) i year d ≡ months_loop n i year d + month_days year (i + n)
unfolding months_loop
months_loop-suc zero i year d = let e : i ≡ i + 0 = omega arith in ap (λ k. d + month_days year k) e
months_loop-suc (suc n) i year d =
    let e : i + 1 + n ≡ i + suc n = omega arith in
    months_loop-suc n (i + 1) year (d + month_days year i)
    ∙ ap (λ k. months_loop n (i + 1) year (d + month_days year i) + month_days year k) e

pub days_before-suc :
    (months year : ℕ)
    → days_before (suc months) year ≡ days_before months year + month_days year (1 + months)
unfolding days_before
days_before-suc months year = months_loop-suc months 1 year 0

pub days_before_zero : (year : ℕ) → days_before 0 year ≡ 0
unfolding days_before
days_before_zero year = refl

pub days_before_12 : (year : ℕ) → days_before 12 year ≡ (if is_leap year then 366 else 365)
unfolding days_before month_days
days_before_12 year = ground arith

month_days_le : (year i : ℕ) → month_days year i ≤ 31
unfolding month_days
month_days_le year i = ground arith

pub days_before_le : (months year : ℕ) → days_before months year ≤ 31 * months
days_before_le zero year = omega (arith, days_before_zero year)
days_before_le (suc n) year =
    omega (arith, days_before-suc n year, days_before_le n year, month_days_le year (1 + n))

secs_of_month_days :
    (months year : ℕ) → secs_of_month months year ≡ u64 (days_before months year * 86400)
unfolding secs_of_month days_before
secs_of_month_days months year = refl

-- `secs_of_month` is the number of seconds of the first `months` months, while it fits 64 bits.
pub secs_of_month_lem :
    (months year : ℕ)
    → months < 2 ^ 32
    → secs_of_month months year ≡ days_before months year * 86400
secs_of_month_lem months year h =
    omega (arith, secs_of_month_days months year, days_before_le months year)
