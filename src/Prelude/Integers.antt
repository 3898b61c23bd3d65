-- ===== src/Prelude/Integers.antt =====
-- Signed integers over the native numbers.
use Prim.Native.Nat.{ℕ, zero, suc}
use mathlib.Core.Bool.{Bool, true, false}
use garcon.Prelude.Tests.{leb}

-- `negsuc n` is `-(n + 1)`.
pub data ℤ : Type 0 where
  pos negsuc : ℕ → ℤ

-- `-v`
abbrev pub negate : ℕ → ℤ
negate zero = pos 0
negate (suc n) = negsuc n

-- `m <= n`
abbrev pub lebℤ : ℤ → ℤ → Bool
lebℤ (pos m) (pos n) = leb m n
lebℤ (pos m) (negsuc n) = false
lebℤ (negsuc m) (pos n) = true
lebℤ (negsuc m) (negsuc n) = leb n m

-- `n == 0`
abbrev pub is_zero : ℤ → Bool
is_zero (pos zero) = true
is_zero (pos (suc n)) = false
is_zero (negsuc n) = false
