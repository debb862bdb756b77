-- ===== src/Base/Int.antt =====
-- The integers of a C `int`, of which the program only tests the sign.
use Prim.Native.Nat.{ℕ, zero, suc}
use mathlib.Core.Bool.{Bool, true, false}

pub data ℤ : Type 0 where
  pos : ℕ → ℤ
  negsuc : ℕ → ℤ

-- `if (x)` fails
abbrev pub is_zero : ℤ → Bool
is_zero (pos zero) = true
is_zero _ = false

-- `x <= 0`
abbrev pub is_nonpositive : ℤ → Bool
is_nonpositive (pos (suc n)) = false
is_nonpositive _ = true
