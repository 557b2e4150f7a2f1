-- ===== src/Float/Decimal.antt =====
-- Hours in billionths, an instance of the floating-point parameter for runs of the definitions.
use go_time_recording.Base.{ℕ, ◌+◌, ◌-◌, ◌*◌, ◌/◌, ◌^◌, ltb, leb, ◌==◌}
use go_time_recording.Base.Int.{pos_part}
use go_time_recording.Float.{Float64}

abbrev pub decimal : Float64
decimal = record {
  Number = ℕ;
  zero_hours = 0;
  literal = λ digits places. digits * 1000000000 / 10 ^ places;
  add = λ a b. a + b;
  sub = λ a b. a - b;
  half = λ a. a / 2;
  lt = ltb;
  le = leb;
  eq = ◌==◌;
  settled = λ a. a;
  hours_of = λ n. pos_part n / 3600;
}
