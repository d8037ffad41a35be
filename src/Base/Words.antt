-- ===== src/Base/Words.antt =====
-- Fixed-width unsigned numbers: the wrap-around, shifts, and bits of a byte.
use Prim.Native.Nat.{ℕ, ◌*◌, ◌/◌, ◌%◌, ◌^◌, bit_and}
use mathlib.Core.Bool.{Bool, not}
use han_os.Base.Tests.{◌==◌}

abbrev pub u8 : ℕ → ℕ
u8 n = n % 2 ^ 8

abbrev pub u16 : ℕ → ℕ
u16 n = n % 2 ^ 16

abbrev pub u32 : ℕ → ℕ
u32 n = n % 2 ^ 32

abbrev pub u64 : ℕ → ℕ
u64 n = n % 2 ^ 64

infixl 75 ◌<<<◌ ◌>>>◌
abbrev pub ◌<<<◌ : ℕ → ℕ → ℕ
x <<< k = x * 2 ^ k

abbrev pub ◌>>>◌ : ℕ → ℕ → ℕ
x >>> k = x / 2 ^ k

-- A number as a C condition.
abbrev pub nonzero : ℕ → Bool
nonzero n = not (n == 0)

-- `b & (1 << k)` as a condition.
abbrev pub bit_set : ℕ → ℕ → Bool
bit_set b k = nonzero (bit_and b (1 <<< k))
