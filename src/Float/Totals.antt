-- ===== src/Float/Totals.antt =====
-- Go's maps from a number to hours, as `map[int]float64` and `map[time.Time]float64` are: what a key
-- does not hold reads as zero.
use go_time_recording.Base.{ℕ, ◌==◌, if◌then◌else◌}
use go_time_recording.Float.{Float64}

module _ (F : Float64) where
  open F use {Number, zero_hours, add}

  abbrev pub Totals : Type 0
  Totals = ℕ → Number

  abbrev pub no_totals : Totals
  no_totals key = zero_hours

  -- `totals[key] += hours`.
  abbrev pub add_at : ℕ → Number → Totals → Totals
  add_at key hours totals k = if k == key then add (totals k) hours else totals k
