-- ===== src/Base/Masks.antt =====
-- Masks of low bits, and numbers split at a digit.
use native.Mathlib.Nat.{div-div-eq-div-mul, pow-suc, one-le-pow, zero-mod}
use native.Mathlib.Omega.{div_any, arith}
use Prim.Native.Nat.{
  ℕ, zero, suc, ◌+◌, ◌-◌, ◌*◌, ◌/◌, ◌%◌, ◌^◌, ◌≤◌, min, bit_and, bit_and-bitwise, bit_or,
  bit_or-bitwise, digits, max, ◌<◌,
}
use mathlib.Core.Path.{◌≡◌, refl, sym, ap, ◌∙◌}

-- The remainder by a product has the remainder of the quotient as its first digit.
pub mod_step : (n b r : ℕ) → n % (b * r) ≡ n / b % r * b + n % b
mod_step n b r =
    let whole : b * (n / b) + n % b ≡ n = div_any n b in
    let upper : r * (n / b / r) + n / b % r ≡ n / b = div_any (n / b) r in
    let split : b * r * (n / (b * r)) + n % (b * r) ≡ n = div_any n (b * r) in
    let same : n / b / r ≡ n / (b * r) = div-div-eq-div-mul n b r in
    let scaled : b * (r * (n / (b * r)) + n / b % r) ≡ b * (n / b) =
      ap (λ x. b * x) (rw same at upper) in
    omega (arith, whole, split, scaled)

no_digits : (n a : ℕ) → digits (λ b. zero) min n a 0 ≡ 0
no_digits zero a = refl
no_digits (suc n) zero = refl
no_digits (suc n) (suc a) = omega (arith, no_digits n (suc a / 2))

low_digits : (n a m : ℕ) → a ≤ n → digits (λ b. zero) min n a (2 ^ m - 1) ≡ a % 2 ^ m
low_digits n a zero h = no_digits n a ∙ omega arith
low_digits zero a (suc m) h = (let e : a ≡ 0 = omega arith in rw e (sym (zero-mod (2 ^ suc m))))
low_digits (suc n) zero (suc m) h = sym (zero-mod (2 ^ suc m))
low_digits (suc n) (suc a) (suc m) h =
    let power : 2 ^ suc m ≡ 2 * 2 ^ m = omega (arith, pow-suc 2 m) in
    let positive : 1 ≤ 2 ^ m = one-le-pow m 2 (omega arith) in
    let half : (2 ^ suc m - 1) / 2 ≡ 2 ^ m - 1 = omega (arith, power, positive) in
    let odd : (2 ^ suc m - 1) % 2 ≡ 1 = omega (arith, power, positive) in
    rw (half, odd, power, low_digits n (suc a / 2) m (omega arith))
      (omega (arith, mod_step (suc a) 2 (2 ^ m)))

-- A mask of the `m` lowest bits takes the remainder.
pub bit_and-low : (a m : ℕ) → bit_and a (2 ^ m - 1) ≡ a % 2 ^ m
bit_and-low a m = bit_and-bitwise a (2 ^ m - 1) ∙ low_digits a a m (omega arith)

joined_digits :
    (n a m j : ℕ) → a ≤ n → a % 2 ^ j ≡ 0 → m < 2 ^ j → digits (λ b. b) max n a m ≡ a + m
joined_digits zero a m j h e l = (let none : a ≡ 0 = omega arith in omega arith)
joined_digits (suc n) zero m j h e l = omega arith
joined_digits (suc n) (suc a) m zero h e l =
    let none : m ≡ 0 = omega arith in
    let rest : digits (λ b. b) max n (suc a / 2) (m / 2) ≡ suc a / 2 + m / 2 =
      joined_digits n (suc a / 2) (m / 2) zero (omega arith) (omega arith) (omega arith) in
    omega (arith, rest)
joined_digits (suc n) (suc a) m (suc j) h e l =
    let power : 2 ^ suc j ≡ 2 * 2 ^ j = omega (arith, pow-suc 2 j) in
    let positive : 1 ≤ 2 ^ j = one-le-pow j 2 (omega arith) in
    let split : suc a % (2 * 2 ^ j) ≡ suc a / 2 % 2 ^ j * 2 + suc a % 2 =
      mod_step (suc a) 2 (2 ^ j) in
    let none : suc a % (2 * 2 ^ j) ≡ 0 = rw power at e in
    let rest : digits (λ b. b) max n (suc a / 2) (m / 2) ≡ suc a / 2 + m / 2 =
      joined_digits n (suc a / 2) (m / 2) j (omega arith) (omega (arith, split, none))
        (omega (arith, l, power)) in
    omega (arith, rest, split, none)

-- A number whose lowest digits are 0, joined with one that has no others.
pub bit_or-low : (a m j : ℕ) → a % 2 ^ j ≡ 0 → m < 2 ^ j → bit_or a m ≡ a + m
bit_or-low a m j e l = bit_or-bitwise a m ∙ joined_digits a a m j (omega arith) e l
