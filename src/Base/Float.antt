-- ===== src/Base/Float.antt =====
-- Go's float64. The arithmetic belongs to the machine and not to the program, so a value is
-- its bit pattern, a number, and the operations are a parameter of what uses them.
use Prim.Native.Nat.{ℕ}
use mathlib.Core.Bool.{Bool}

abbrev pub Float64 : Type 0
Float64 = ℕ

pub record FloatOps : Type 0 where
  pub zero_value : Float64
  pub add : Float64 → Float64 → Float64
  pub sub : Float64 → Float64 → Float64
  pub mul : Float64 → Float64 → Float64
  pub div : Float64 → Float64 → Float64
  pub maximum : Float64 → Float64 → Float64
  -- `a < b`
  pub less : Float64 → Float64 → Bool
  -- float64(n) of an unsigned integer, and the conversion back
  pub of_uint : ℕ → Float64
  pub to_uint : Float64 → ℕ
  -- time.Duration.Seconds of a number of nanoseconds
  pub seconds : ℕ → Float64
