-- ===== src/Text/Compare.antt =====
-- `strcmp` on strings as lists of characters.
use han_os.Base.{
  ℕ, zero, suc, ◌+◌, ◌<◌, ◌≡◌, ◌≢◌, ◌↔◌, refl, sym, ap, ap₂, ◌∙◌, true, false, not, ◌||◌, some,
  List, [], ◌∷◌, length, drop, get_or, ◌==◌, arith, Bool-cases, inl, inr,
}
use han_os.Text.{strcmp_loop, strcmp}
use han_os.Text.Copy.{Holds}

strcmp_loop_lem :
    (fuel : ℕ) (m : ℕ → ℕ) (a b i p q : ℕ) (xs ys : List ℕ)
    → p ≡ a + i
    → q ≡ b + i
    → length xs < fuel
    → Holds m p xs
    → Holds m q ys
    → (c d : ℕ) × (strcmp_loop fuel m a b i ≡ some (c, d)) × ((c ≡ d) ↔ (xs ≡ ys))
unfolding strcmp_loop
strcmp_loop_lem zero m a b i p q xs ys ep eq h hx hy = absurd (omega arith)
strcmp_loop_lem (suc fuel) m a b i p q [] [] ep eq h hx hy =
    let done : (not (m p == m q) || (m p == 0 || m q == 0)) ≡ true = ground arith in
    (m p, m q, rw (← ep, ← eq, done) refl, ((λ _. refl), λ _. hx ∙ sym hy))
strcmp_loop_lem (suc fuel) m a b i p q [] (y ∷ ys) ep eq h hx (at, nonzero, rest) =
    let done : (not (m p == m q) || (m p == 0 || m q == 0)) ≡ true = ground arith in
    (
      m p,
      m q,
      rw (← ep, ← eq, done) refl,
      ((λ e. absurd (ground arith)), λ e. absurd (omega (arith, ap length e))),
    )
strcmp_loop_lem (suc fuel) m a b i p q (x ∷ xs) [] ep eq h (at, nonzero, rest) hy =
    let done : (not (m p == m q) || (m p == 0 || m q == 0)) ≡ true = ground arith in
    (
      m p,
      m q,
      rw (← ep, ← eq, done) refl,
      ((λ e. absurd (ground arith)), λ e. absurd (omega (arith, ap length e))),
    )
strcmp_loop_lem (suc fuel) m a b i p q (x ∷ xs) (y ∷ ys) ep eq h (atx, nx, restx) (aty, ny, resty) =
    elim (Bool-cases (x == y)) [
      | inl same_char ↦
          let x_is : x ≡ y = ground arith in
          let more : (not (m p == m q) || (m p == 0 || m q == 0)) ≡ false = ground arith in
          let (c, d, compares, same) =
            strcmp_loop_lem fuel m a b (i + 1) (p + 1) (q + 1) xs ys (omega arith) (omega arith)
              (omega arith) restx resty in
          (
            c,
            d,
            rw (← ep, ← eq, more) compares,
            ((λ e. ap₂ ◌∷◌ x_is (same.0 e)), λ e. same.1 (ap (λ l. drop 1 l) e)),
          )
      | inr other ↦
          let x_not : x ≢ y = ground arith in
          let done : (not (m p == m q) || (m p == 0 || m q == 0)) ≡ true = ground arith in
          (
            m p,
            m q,
            rw (← ep, ← eq, done) refl,
            ((λ e. absurd (ground arith)), λ e. absurd (x_not (ap (λ l. get_or l 0 0) e))),
          )
    ]

-- `strcmp` of two strings ends, and the two characters whose difference it returns are the same
-- exactly when the strings are.
pub strcmp_lem :
    (fuel : ℕ) (m : ℕ → ℕ) (a b : ℕ) (xs ys : List ℕ)
    → length xs < fuel
    → Holds m a xs
    → Holds m b ys
    → (c d : ℕ) × (strcmp fuel m a b ≡ some (c, d)) × ((c ≡ d) ↔ (xs ≡ ys))
unfolding strcmp
strcmp_lem fuel m a b xs ys h hx hy =
    strcmp_loop_lem fuel m a b 0 a b xs ys (omega arith) (omega arith) h hx hy
