-- ===== src/Cmos/Decode.antt =====
-- `cmos_read_rtc` of cmos.c: the registers settle, and their BCD and 12-hour forms are decoded.
use han_os.Base.{
  ℕ, zero, suc, ◌+◌, ◌*◌, ◌/◌, ◌%◌, ◌≤◌, ◌<◌, ◌≡◌, ◌≢◌, refl, ap, Bool, true, false, ◌&&◌, arith,
  ◌==◌, ==_iff, if◌then◌else◌, some, List, [], ◌∷◌, ◌++◌, Bool-cases, inl, inr, all_below,
  all_below_sound, bit_and, nonzero,
}
use han_os.Cmos.{Rtc, rtc_values_are_not_equal, settle, from_bcd, hours_from_bcd, decode}

same_values : (a b : Rtc) → rtc_values_are_not_equal a b ≡ false → a ≡ b
unfolding rtc_values_are_not_equal
same_values a b h = ground arith

-- What the loop of `cmos_read_rtc` returns was read twice in a row.
pub settle-twice :
    (first : Rtc) (later : List Rtc) (rtc : Rtc)
    → settle first later ≡ some rtc
    → (before : List Rtc) × (after : List Rtc) × (first ∷ later ≡ before ++ (rtc ∷ rtc ∷ after))
unfolding settle
settle-twice first [] rtc h = absurd (cc)
settle-twice first (next ∷ later) rtc h = elim (Bool-cases (rtc_values_are_not_equal next first)) [
  | inl differ ↦
      let h' : settle next later ≡ some rtc = rw differ at h in
      let (before, after, e) = settle-twice next later rtc h' in
      (first ∷ before, after, ap (λ l. first ∷ l) e)
  | inr alike ↦
      let h' : some next ≡ some rtc = rw alike at h in
      let same : next ≡ first = same_values next first alike in
      let found : next ≡ rtc = cc in ([], later, rw (← same, found))
]

-- Two decimal digits in a byte, as the clock holds them.
abbrev pub to_bcd : ℕ → ℕ
to_bcd v = v / 10 * 16 + v % 10

digits_table : all_below 100 (λ v. from_bcd (to_bcd v) == v) ≡ true
unfolding all_below
digits_table = refl

pub from_bcd-to_bcd : (v : ℕ) → v < 100 → from_bcd (to_bcd v) ≡ v
from_bcd-to_bcd v h =
    (==_iff _ v).0 (all_below_sound 100 (λ v. from_bcd (to_bcd v) == v) v digits_table h)

hours_table : all_below 24 (λ v. hours_from_bcd (to_bcd v) == v) ≡ true
unfolding all_below
hours_table = refl

pub hours_from_bcd-to_bcd : (v : ℕ) → v < 24 → hours_from_bcd (to_bcd v) ≡ v
hours_from_bcd-to_bcd v h =
    (==_iff _ v).0 (all_below_sound 24 (λ v. hours_from_bcd (to_bcd v) == v) v hours_table h)

-- Registers in BCD that show the reading `r`, its year within the century.
abbrev pub encode : Rtc → Rtc
encode r = record {
  seconds = to_bcd r.seconds;
  minutes = to_bcd r.minutes;
  hours = to_bcd r.hours;
  weekdays = to_bcd r.weekdays;
  day = to_bcd r.day;
  month = to_bcd r.month;
  year = to_bcd (r.year % 100);
  century = to_bcd r.century;
}

-- A reading whose numbers a clock can show, in the hundred years from 2022 on. What is in the century
-- register does not matter.
pub record IsReading (r : Rtc) : Type 0 where
  pub seconds_in : r.seconds < 60
  pub minutes_in : r.minutes < 60
  pub hours_in : r.hours < 24
  pub weekdays_in : r.weekdays < 8
  pub day_in : r.day < 32
  pub month_in : r.month < 13
  pub century_in : r.century < 100
  pub year_from : 2022 ≤ r.year
  pub year_below : r.year < 2122

-- With the century register 0 that cmos.c has, in BCD and 24-hour mode, `cmos_read_rtc` decodes the
-- registers of a clock to the reading that the clock shows, for the years 2022 to 2121, whatever the
-- register of the century holds: the century is found from the year's last two digits.
pub decode-encode :
    (reg_b : ℕ) (r : Rtc)
    → bit_and reg_b 0x04 ≡ 0
    → bit_and reg_b 0x02 ≢ 0
    → IsReading r
    → decode 0 reg_b (encode r) ≡ r
unfolding decode
decode-encode reg_b r bcd full ok = ground (
  arith,
  from_bcd-to_bcd r.seconds (omega (arith, ok)),
  from_bcd-to_bcd r.minutes (omega (arith, ok)),
  hours_from_bcd-to_bcd r.hours ok.hours_in,
  from_bcd-to_bcd r.weekdays (omega (arith, ok)),
  from_bcd-to_bcd r.day (omega (arith, ok)),
  from_bcd-to_bcd r.month (omega (arith, ok)),
  from_bcd-to_bcd (r.year % 100) (omega arith),
  from_bcd-to_bcd r.century ok.century_in,
)

-- The hours register in 12-hour mode: 1 to 12, and the mark of the afternoon.
abbrev pub hours_12 : ℕ → Bool → ℕ
hours_12 h pm = to_bcd h + (if pm then 0x80 else 0)

-- The hour of the day that it shows.
abbrev pub hour_of_day : ℕ → Bool → ℕ
hour_of_day h pm = h % 12 + (if pm then 12 else 0)

abbrev decoded_12 : ℕ → Bool → ℕ
decoded_12 h pm =
    let x : ℕ = hours_from_bcd (hours_12 h pm) in
    if nonzero (bit_and x 0x80) then (bit_and x 0x7f + 12) % 24 else x

abbrev expected_12 : ℕ → Bool → ℕ
expected_12 h pm = if h == 12 then (if pm then 0 else 12) else hour_of_day h pm

table_12 :
    all_below 12 (λ i.
      (decoded_12 (suc i) true == expected_12 (suc i) true)
      && (decoded_12 (suc i) false == expected_12 (suc i) false))
    ≡ true
unfolding all_below
table_12 = refl

decoded_12_lem : (h : ℕ) (pm : Bool) → 0 < h → h ≤ 12 → decoded_12 h pm ≡ expected_12 h pm
decoded_12_lem zero pm pos le = absurd (omega arith)
decoded_12_lem (suc i) true pos le =
    (==_iff _ _).0 (ground (arith, all_below_sound 12 _ i table_12 (omega arith)))
decoded_12_lem (suc i) false pos le =
    (==_iff _ _).0 (ground (arith, all_below_sound 12 _ i table_12 (omega arith)))

-- In BCD and 12-hour mode the hours are decoded to the hour of the day for 1 to 11 o'clock, and
-- twelve o'clock is taken the wrong way round: noon gives 0 and midnight gives 12.
pub decode-hours_12 :
    (century_register reg_b h : ℕ) (pm : Bool) (r : Rtc)
    → bit_and reg_b 0x04 ≡ 0
    → bit_and reg_b 0x02 ≡ 0
    → 0 < h
    → h ≤ 12
    → r.hours ≡ hours_12 h pm
    → (decode century_register reg_b r).hours
      ≡ (if h == 12 then (if pm then 0 else 12) else hour_of_day h pm)
unfolding decode
decode-hours_12 c reg_b h pm r bcd half pos le e = rw (bcd, half, e) (decoded_12_lem h pm pos le)
