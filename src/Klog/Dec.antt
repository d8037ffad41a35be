-- ===== src/Klog/Dec.antt =====
-- `klog_putint` prints the decimal digits of a number, as many as it has.
use native.Mathlib.Nat.{
  mul-div_cancel, pow-suc, one-le-pow, pow-le-pow_right, mod-lt, div-eq_of_lt, mod-eq_of_lt,
  div-div-eq-div-mul,
}
use native.Mathlib.Omega.{div_any}
use han_os.Base.{
  ◌&&◌, if◌then◌else◌, ℕ, zero, suc, ◌+◌, ◌-◌, ◌*◌, ◌/◌, ◌%◌, ◌^◌, ◌≤◌, ◌<◌, ◌≡◌, refl, ◌∙◌, true,
  some, List, [], ◌∷◌, length, ap, ◌⊎◌, ltb, leb, arith, Bool-cases, inl, inr, u64, u8, mod_step,
}
use han_os.Klog.{digits_loop, div_loop, putint_digits}
use han_os.Klog.Hex.{read_digits}

-- The values of the characters 0 to 9; another character has the value 10, which no digit has.
abbrev pub digit_values : List ℕ → List ℕ
digit_values [] = []
digit_values (c ∷ cs) = (if leb 48 c && leb c 57 then c - 48 else 10) ∷ digit_values cs

digit_is : (n b : ℕ) → 0 < b → u8 (((n % (b * 10)) - (n % b)) / b) ≡ n / b % 10
digit_is n b h =
    let e : n % (b * 10) - n % b ≡ n / b % 10 * b = omega (arith, mod_step n b 10) in
    rw (e, mul-div_cancel (n / b % 10) h) (omega arith)

read-digits_loop :
    (d fuel n acc : ℕ)
    → d < fuel
    → (cs : List ℕ) × (digits_loop fuel n (10 ^ d) ≡ some cs)
      × (read_digits 10 acc (digit_values cs) ≡ acc * 10 ^ d + n % 10 ^ d)
      × (length cs ≡ d)
unfolding digits_loop read_digits
read-digits_loop d zero n acc h = absurd (omega arith)
read-digits_loop zero (suc fuel) n acc h = ([], refl, omega arith, refl)
read-digits_loop (suc d) (suc fuel) n acc h =
    let b : ℕ = 10 ^ d in
    let positive : 1 ≤ b = one-le-pow d 10 (omega arith) in
    let power : 10 ^ suc d ≡ b * 10 = pow-suc 10 d in
    let lower : b * 10 / 10 ≡ b = omega arith in
    let more : leb 10 (b * 10) ≡ true = ground arith in
    let (cs, prints, value, count) =
      read-digits_loop d fuel n (acc * 10 + n / b % 10) (omega arith) in
    let back : n / b % 10 + 48 - 48 ≡ n / b % 10 = omega arith in
    let is_digit : leb 48 (n / b % 10 + 48) && leb (n / b % 10 + 48) 57 ≡ true = ground arith in
    (
      (n / b % 10 + 48) ∷ cs,
      rw (power, lower, more, prints, power, lower, digit_is n b positive) refl,
      rw (is_digit, back, power) (value ∙ omega (arith, mod_step n b 10)),
      ap suc count,
    )

below : (n k : ℕ) → n / 10 ^ k ≡ 0 → n < 10 ^ k
below n k e =
    let positive : 0 < 10 ^ k = one-le-pow k 10 (omega arith) in
    let r = mod-lt n positive in
    let whole : 10 ^ k * 0 + n % 10 ^ k ≡ n = rw e at (div_any n (10 ^ k)) in
    omega (arith, whole, r)

above : (n b : ℕ) → 0 < n / b → b ≤ n
above n b h = elim (Bool-cases (ltb n b)) [
  | inl small ↦
      let under : n < b = ground arith in
      let none_left : n / b ≡ 0 = div-eq_of_lt under in absurd (omega (arith, h, none_left))
  | inr large ↦ ground arith
]

at_least :
    (d k n : ℕ) → 10 ^ k ≤ n → (d ≡ suc k) ⊎ (10 ^ (d - 1) ≤ n) → (d ≡ k) ⊎ (10 ^ (d - 1) ≤ n)
at_least d k n h (inl e) = let same : d - 1 ≡ k = omega (arith, e) in inr (rw same h)
at_least d k n h (inr large) = inr large

div_loop-more :
    (fuel temp div next larger d : ℕ)
    → ltb 0 temp ≡ true
    → temp / 10 ≡ next
    → u64 (div * 10) ≡ larger
    → div_loop fuel next larger ≡ some d
    → div_loop (suc fuel) temp div ≡ some d
unfolding div_loop
div_loop-more fuel temp div next larger d more tenth times loops = rw (more, times, tenth) loops

div_loop_lem :
    (j fuel k n : ℕ)
    → j < fuel
    → k + j ≤ 19
    → n / 10 ^ k < 10 ^ j
    → (d : ℕ) × (d ≤ 19)
      × (div_loop fuel (n / 10 ^ k) (10 ^ k) ≡ some (10 ^ d))
      × (n < 10 ^ d)
      × ((d ≡ k) ⊎ (10 ^ (d - 1) ≤ n))
unfolding div_loop
div_loop_lem j zero k n h hk small = absurd (omega arith)
div_loop_lem zero (suc fuel) k n h hk small =
    let none_left : n / 10 ^ k ≡ 0 = omega arith in
    (k, omega arith, rw none_left refl, below n k none_left, inl refl)
div_loop_lem (suc j) (suc fuel) k n h hk small = elim (Bool-cases (ltb 0 (n / 10 ^ k))) [
  | inl more ↦
      let b : ℕ = 10 ^ k in
      let power : 10 ^ suc k ≡ b * 10 = pow-suc 10 k in
      let powers : 10 ^ suc j ≡ 10 ^ j * 10 = pow-suc 10 j in
      let in_word : 10 ^ suc k ≤ 10 ^ 19 =
        pow-le-pow_right {n = 10} (omega arith) {i = suc k} {j = 19} (omega arith) in
      let kept : u64 (b * 10) ≡ 10 ^ suc k = omega (arith, power, in_word) in
      let next : n / b / 10 ≡ n / 10 ^ suc k = rw power (div-div-eq-div-mul n b 10) in
      let tenth : n / b / 10 < 10 ^ j = omega (arith, powers, small) in
      let smaller : n / 10 ^ suc k < 10 ^ j = rw next at tenth in
      let (d, few, loops, under, least) =
        div_loop_lem j fuel (suc k) n (omega arith) (omega arith) smaller in
      let some_left : 0 < n / b = ground arith in
      (
        d,
        few,
        div_loop-more fuel (n / b) b (n / 10 ^ suc k) (10 ^ suc k) (10 ^ d) more next kept loops,
        under,
        at_least d k n (above n b some_left) least,
      )
  | inr done ↦
      let none_left : n / 10 ^ k ≡ 0 = ground arith in
      (k, omega arith, rw done refl, below n k none_left, inl refl)
]

div_loop_at :
    (j fuel k n temp div : ℕ)
    → temp ≡ n / 10 ^ k
    → div ≡ 10 ^ k
    → j < fuel
    → k + j ≤ 19
    → n / 10 ^ k < 10 ^ j
    → (d : ℕ) × (d ≤ 19)
      × (div_loop fuel temp div ≡ some (10 ^ d))
      × (n < 10 ^ d)
      × ((d ≡ k) ⊎ (10 ^ (d - 1) ≤ n))
div_loop_at j fuel k n temp div et ed h hk small = rw (et, ed) (div_loop_lem j fuel k n h hk small)

both_loops :
    (n div : ℕ) (cs : List ℕ)
    → div_loop 20 n 1 ≡ some div
    → digits_loop 20 n div ≡ some cs
    → putint_digits n ≡ some cs
unfolding putint_digits
both_loops n div cs counted prints = rw (putint_digits, counted, prints)

-- The digits of a number: as many as it has, and none of 0.
pub putint_digits_lem :
    (n : ℕ)
    → n < 10 ^ 19
    → (d : ℕ) × (cs : List ℕ) × (putint_digits n ≡ some cs)
      × (read_digits 10 0 (digit_values cs) ≡ n)
      × (length cs ≡ d)
      × (n < 10 ^ d)
      × ((d ≡ 0) ⊎ (10 ^ (d - 1) ≤ n))
putint_digits_lem n h =
    let start : n / 10 ^ 0 < 10 ^ 19 = omega (arith, h) in
    let (d, few, counted, under, least) =
      div_loop_at 19 20 0 n n 1 (omega arith) refl (omega arith) (omega arith) start in
    let (cs, prints, value, count) = read-digits_loop d 20 n 0 (omega arith) in
    let whole : n % 10 ^ d ≡ n = mod-eq_of_lt under in
    (
      d,
      cs,
      both_loops n (10 ^ d) cs counted prints,
      value ∙ omega (arith, whole),
      count,
      under,
      least,
    )
