-- ===== src/Float.antt =====
-- Hours are Go's `float64`. The language's floating-point arithmetic is a parameter: a type with the
-- operations that the code uses, and no laws but those that a theorem names.
pub mod Decimal
pub mod Totals
use go_time_recording.Base.{ℕ, Bool}
use go_time_recording.Base.Int.{ℤ}

pub record Float64 : Type 1 where
  pub Number : Type 0
  pub zero_hours : Number
  -- The value of a literal: its digits as a number, and how many of them stand behind the point.
  pub literal : ℕ → ℕ → Number
  pub add : Number → Number → Number
  pub sub : Number → Number → Number
  pub half : Number → Number
  pub lt : Number → Number → Bool
  pub le : Number → Number → Bool
  pub eq : Number → Number → Bool
  -- `math.Round(x * 1e9) / 1e9`, a negative zero made zero.
  pub settled : Number → Number
  -- `time.Duration.Hours`, of a duration in nanoseconds.
  pub hours_of : ℤ → Number
