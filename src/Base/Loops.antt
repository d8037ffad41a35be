-- ===== src/Base/Loops.antt =====
-- Counted loops: `for (i = 0; i < n; i++) s = body(i, s)`.
use Prim.Native.Nat.{ℕ, zero, suc, ◌+◌, ◌<◌}
use mathlib.Core.Path.{◌≡◌}
use native.Mathlib.Omega.{arith}

module _ {ℓ} {S : Type ℓ} where
  unfoldable pub for_from : ℕ → ℕ → (ℕ → S → S) → S → S
  for_from zero i body s = s
  for_from (suc n) i body s = for_from n (i + 1) body (body i s)

  unfoldable pub for_loop : ℕ → (ℕ → S → S) → S → S
  unfolding for_from
  for_loop n body s = for_from n 0 body s

module _ {ℓ κ} {S : Type ℓ} where
  for_from_inv :
      (P : ℕ → S → Type κ) (body : ℕ → S → S) (n i m : ℕ)
      → i + n ≡ m
      → ((j : ℕ) (s : S) → j < m → P j s → P (j + 1) (body j s))
      → (s : S) → P i s
      → P m (for_from n i body s)
  unfolding for_from
  for_from_inv P body zero i m e keep s p = (let z : i ≡ m = omega arith in rw z at p)
  for_from_inv P body (suc n) i m e keep s p =
      for_from_inv P body n (i + 1) m (omega arith) keep (body i s) (keep i s (omega arith) p)

  -- What holds at the first index, and is kept by each round, holds at the end.
  pub for_loop_inv :
      (P : ℕ → S → Type κ) (body : ℕ → S → S) (n : ℕ)
      → ((i : ℕ) (s : S) → i < n → P i s → P (i + 1) (body i s))
      → (s : S) → P 0 s
      → P n (for_loop n body s)
  unfolding for_loop
  for_loop_inv P body n keep s p = for_from_inv P body n 0 n (omega arith) keep s p
