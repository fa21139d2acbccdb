-- ===== src/Base/Int.antt =====
-- C's signed `int` as an integer: what a counter that runs below zero needs.
use Prim.Native.Nat.{ℕ, suc, ◌+◌, ◌-◌, ◌^◌}
use mathlib.Core.Path.{◌≡◌}
use mathlib.Core.Bool.{Bool}
use native.Mathlib.Omega.{arith}
use rvcomp.Base.Tests.{ltb, leb, if◌then◌else◌}

-- `negsuc n` is -(n + 1).
pub data ℤ : Type 0 where
  pos : ℕ → ℤ
  negsuc : ℕ → ℤ

-- The number, 0 for a negative one.
abbrev pub to_nat : ℤ → ℕ
to_nat (pos n) = n
to_nat (negsuc n) = 0

-- `z - n`
abbrev pub minus : ℤ → ℕ → ℤ
minus (pos m) n = if leb n m then pos (m - n) else negsuc (n - m - 1)
minus (negsuc m) n = negsuc (m + n)

abbrev pub neg : ℤ → ℤ
neg (pos n) = minus (pos 0) n
neg (negsuc n) = pos (suc n)

-- `n < z`
abbrev pub below : ℕ → ℤ → Bool
below n z = ltb n (to_nat z)

-- A 32-bit word read as an `int`, and an `int` as an `unsigned`.
abbrev pub int_of : ℕ → ℤ
int_of w = if ltb w (2 ^ 31) then pos w else negsuc (2 ^ 32 - 1 - w)

abbrev pub word_of : ℤ → ℕ
word_of (pos n) = n
word_of (negsuc n) = 2 ^ 32 - 1 - n

pub to_nat-minus : (z : ℤ) (n : ℕ) → to_nat (minus z n) ≡ to_nat z - n
to_nat-minus (pos m) n = ground arith
to_nat-minus (negsuc m) n = omega arith
