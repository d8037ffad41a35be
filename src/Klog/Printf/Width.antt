-- ===== src/Klog/Printf/Width.antt =====
-- `klog_putint` with its width: the loop that counts the digits, and the text that is printed.
use native.Mathlib.Nat.{pow-suc, pow-le-pow_right, one-le-pow}
use han_os.Base.{
  ℕ, zero, suc, ◌+◌, ◌-◌, ◌*◌, ◌^◌, ◌≤◌, ◌<◌, ◌≡◌, refl, ◌∙◌, Bool, true, false, ◌&&◌, some, List,
  ◌++◌, length, ap, sym, ◌⊎◌, inl, inr, ltb, ◌==◌, arith, Bool-cases, u64,
}
use han_os.Klog.{putint_digits}
use han_os.Klog.Printf.{
  width_loop, putint_text, magnitude, sign, fill, counted_width, lone_zero, signed_above,
}
use han_os.Klog.Hex.{read_digits}
use han_os.Klog.Dec.{digit_values, putint_digits_lem}

width_loop-more :
    (fuel n k i next w : ℕ)
    → signed_above n i && ltb i (2 ^ 64 - 1) ≡ true
    → u64 (u64 (i * 10) + 9) ≡ next
    → width_loop fuel n (k + 1) next ≡ some w
    → width_loop (suc fuel) n k i ≡ some w
unfolding width_loop
width_loop-more fuel n k i next w more e loops = rw (more, e) loops

width_loop-stop :
    (fuel n k i : ℕ)
    → signed_above n i && ltb i (2 ^ 64 - 1) ≡ false
    → width_loop (suc fuel) n k i ≡ some k
unfolding width_loop
width_loop-stop fuel n k i stop = rw stop refl

-- The row of nines with `k` digits, as far as 64 bits hold it.
abbrev nines : ℕ → ℕ
nines k = u64 (10 ^ k + (2 ^ 64 - 1))

power_next : (k : ℕ) → 10 ^ (k + 1) ≡ 10 ^ k * 10
power_next k = let next : k + 1 ≡ suc k = omega arith in rw next (pow-suc 10 k)

nines-suc : (k : ℕ) → u64 (u64 (nines k * 10) + 9) ≡ nines (k + 1)
nines-suc k = let power : 10 ^ (k + 1) ≡ 10 ^ k * 10 = power_next k in omega (arith, power)

-- The loop ends by itself: 64 digits of nines are all ones.
width_loop-ends : (j k n : ℕ) → j + k ≡ 64 → (w : ℕ) × (width_loop (suc j) n k (nines k) ≡ some w)
width_loop-ends zero k n e =
    let last : k ≡ 64 = omega (arith, e) in
    let full : nines k ≡ 2 ^ 64 - 1 = rw last refl in
    (k, width_loop-stop zero n k (nines k) (ground (arith, full)))
width_loop-ends (suc j) k n e =
    elim (Bool-cases (signed_above n (nines k) && ltb (nines k) (2 ^ 64 - 1))) [
      | inl more ↦
          let (w, loops) = width_loop-ends j (k + 1) n (omega (arith, e)) in
          (w, width_loop-more (suc j) n k (nines k) (nines (k + 1)) w more (nines-suc k) loops)
      | inr stop ↦ (k, width_loop-stop (suc j) n k (nines k) stop)
    ]

-- Up to 18 digits the row of nines is below the sign, and the loop counts exactly.
abbrev Counts : ℕ → ℕ → Type 0
Counts n w = (1 ≤ w) × (n < 10 ^ w) × ((w ≡ 1) ⊎ (10 ^ (w - 1) ≤ n))

short-nines : (k : ℕ) → k ≤ 18 → (nines k ≡ 10 ^ k - 1) × (10 ^ k ≤ 10 ^ 18) × (1 ≤ 10 ^ k)
short-nines k h =
    let low : 10 ^ k ≤ 10 ^ 18 =
      pow-le-pow_right {n = 10} (omega arith) {i = k} {j = 18} (omega arith) in
    let positive : 1 ≤ 10 ^ k = one-le-pow k 10 (omega arith) in
    (omega (arith, low, positive), low, positive)

width_loop-Counts :
    (j k n fuel : ℕ)
    → j + k ≡ 18
    → j < fuel
    → 1 ≤ k
    → n < 10 ^ 18
    → (k ≡ 1) ⊎ (10 ^ (k - 1) ≤ n)
    → (w : ℕ) × (width_loop fuel n k (nines k) ≡ some w) × Counts n w
width_loop-Counts j k n zero e hf hk h least = absurd (omega arith)
width_loop-Counts zero k n (suc fuel) e hf hk h least =
    let (short, low, positive) = short-nines k (omega arith) in
    let all : k ≡ 18 = omega (arith, e) in
    let under : n < 10 ^ k = rw all h in
    (k, width_loop-stop fuel n k (nines k) (ground (arith, short, under)), (hk, under, least))
width_loop-Counts (suc j) k n (suc fuel) e hf hk h least =
    let (short, low, positive) = short-nines k (omega arith) in
    elim (Bool-cases (signed_above n (nines k) && ltb (nines k) (2 ^ 64 - 1))) [
      | inl more ↦
          let reached : 10 ^ (k + 1 - 1) ≤ n = ground (arith, more, short) in
          let (w, loops, counts) =
            width_loop-Counts j (k + 1) n fuel (omega (arith, e)) (omega (arith, hf)) (omega arith)
              h (inr reached) in
          (w, width_loop-more fuel n k (nines k) (nines (k + 1)) w more (nines-suc k) loops, counts)
      | inr stop ↦
          let under : n < 10 ^ k = ground (arith, stop, short, low) in
          (k, width_loop-stop fuel n k (nines k) stop, (hk, under, least))
    ]

power_order : (a b n : ℕ) → 10 ^ a ≤ n → n < 10 ^ b → a < b
power_order a b n low high = elim (Bool-cases (ltb a b)) [
  | inl below ↦ ground arith
  | inr above ↦
      let reached : b ≤ a = ground arith in
      let grows : 10 ^ b ≤ 10 ^ a =
        pow-le-pow_right {n = 10} (omega arith) {i = b} {j = a} reached in
      absurd (omega (arith, low, high, grows))
]

-- A number that is not 0 has one count of digits.
one_count : (n w d : ℕ) → Counts n w → 0 < n → n < 10 ^ d → (d ≡ 0) ⊎ (10 ^ (d - 1) ≤ n) → w ≡ d
one_count n w d counts positive high (inl none_left) =
    let low : n < 1 = rw none_left at high in absurd (omega (arith, low, positive))
one_count n w d (some_left, under, inl one) positive high (inr low) =
    let less = power_order (d - 1) w n low under in
    let more = power_order 0 d n positive high in omega (arith, less, more, one)
one_count n w d (some_left, under, inr least) positive high (inr low) =
    let less = power_order (d - 1) w n low under in
    let more = power_order (w - 1) d n least high in omega (arith, less, more, some_left)

-- The width that the first loop finds.
width_loop_lem : (n : ℕ) → (w : ℕ) × (width_loop 64 n 1 9 ≡ some w) × (Counts n w ⊎ (10 ^ 18 ≤ n))
width_loop_lem n = elim (Bool-cases (ltb n (10 ^ 18))) [
  | inl small ↦
      let (w, loops, counts) =
        width_loop-Counts 17 1 n 64 (omega arith) (omega arith) (omega arith) (ground arith)
          (inl refl) in
      (w, loops, inl counts)
  | inr large ↦
      let (w, loops) = width_loop-ends 63 1 n (omega arith) in (w, loops, inr (ground arith))
]

-- What is shown of a number after its sign and padding: 0 has a digit of its own.
read_digits-lone_zero :
    (n v : ℕ) (cs : List ℕ)
    → read_digits 10 0 (digit_values cs) ≡ v
    → read_digits 10 0 (digit_values (lone_zero n ++ cs)) ≡ v
unfolding read_digits
read_digits-lone_zero n v cs value = elim (Bool-cases (n == 0)) [
  | inl none_left ↦ rw none_left value
  | inr some_left ↦ rw some_left value
]

-- A power of ten is not 0.
no_power : (k : ℕ) → 10 ^ k ≤ 0 → 0 < 0
no_power k h = let positive : 1 ≤ 10 ^ k = one-le-pow k 10 (omega arith) in omega arith

zero_count : (w d : ℕ) → Counts 0 w → (d ≡ 0) ⊎ (10 ^ (d - 1) ≤ 0) → w ≡ suc d
zero_count w d (some_left, under, least) (inr low) = absurd (omega (arith, no_power (d - 1) low))
zero_count w d (some_left, under, inr low) (inl e) = absurd (omega (arith, no_power (w - 1) low))
zero_count w d (some_left, under, inl one) (inl e) = omega (arith, one, e)

shown_count :
    (n d w : ℕ) (cs : List ℕ)
    → n < 2 ^ 64
    → length cs ≡ d
    → magnitude n < 10 ^ d
    → (d ≡ 0) ⊎ (10 ^ (d - 1) ≤ magnitude n)
    → Counts (magnitude n) w
    → w ≡ length (lone_zero n ++ cs)
shown_count n d w cs h count high least counts = elim (Bool-cases (n == 0)) [
  | inl none_left ↦
      let nothing : magnitude n ≡ 0 = ground arith in
      rw none_left
        (zero_count w d (rw nothing at counts) (rw nothing at least) ∙ ap suc (sym count))
  | inr some_left ↦
      let positive : 0 < magnitude n = ground arith in
      rw some_left (one_count (magnitude n) w d counts positive high least ∙ sym count)
]

putint_text_at :
    (n width w : ℕ) (zero_filling : Bool) (cs : List ℕ)
    → width_loop 64 (magnitude n) 1 9 ≡ some w
    → putint_digits (magnitude n) ≡ some cs
    → putint_text n width zero_filling
      ≡ some (sign n ++ (fill (counted_width n w) width zero_filling ++ (lone_zero n ++ cs)))
unfolding putint_text
putint_text_at n width w zero_filling cs loops prints = rw (putint_text, loops, prints)

-- `klog_putint` ends for every 64 bits and puts the sign, the padding and the digits, which are those
-- of the magnitude. Below 10 ^ 18 the padding is what the width has left after as many characters as
-- there are digits, or one less for a negative number.
pub putint_text-digits :
    (n width : ℕ) (zero_filling : Bool)
    → n < 2 ^ 64
    → (w : ℕ) × (cs : List ℕ) × (putint_text n width zero_filling
        ≡ some (sign n ++ (fill (counted_width n w) width zero_filling ++ cs)))
      × (read_digits 10 0 (digit_values cs) ≡ magnitude n)
      × ((w ≡ length cs) ⊎ (10 ^ 18 ≤ magnitude n))
putint_text-digits n width zero_filling h =
    let small : magnitude n < 10 ^ 19 = ground arith in
    let (d, cs, prints, value, count, under, least) = putint_digits_lem (magnitude n) small in
    let (w, loops, counted) = width_loop_lem (magnitude n) in
    (
      w,
      lone_zero n ++ cs,
      putint_text_at n width w zero_filling cs loops prints,
      read_digits-lone_zero n (magnitude n) cs value,
      elim counted [
        | inl counts ↦ inl (shown_count n d w cs h count under least counts)
        | inr large ↦ inr large
      ],
    )
