-- ===== src/Calendar/Range.antt =====
-- The loops `for day := first; !day.After(last); day = day.AddDate(0, 0, 1)`.
use native.Mathlib.Decide.{ℕ_discrete}
use go_time_recording.Base.{
  ap, ℕ, zero, suc, ◌+◌, ◌-◌, ◌≡◌, refl, arith, Bool, false, true, ◌&&◌, List, [], ◌∷◌, leb, ◌==◌,
  if◌then◌else◌, keep,
}
use go_time_recording.Calendar.{Day, midnight, calendar_day, local_seconds}
use go_time_recording.Base.Int.{◌+ℤ◌}

unfoldable pub days_up : ℕ → Day → List Day
days_up zero day = []
days_up (suc rounds) day = day ∷ days_up rounds (day + 1)

-- The days from one to another, both included.
unfoldable pub days_of : Day → Day → List Day
days_of first last = days_up (last + 1 - first) first

abbrev pub among : Day → List Day → Bool
among day [] = false
among day (d ∷ ds) = if day == d then true else among day ds

among-days_up :
    (p : Day → Bool) (rounds first day : ℕ)
    → among day (keep p (days_up rounds first))
      ≡ (leb first day && (leb (day + 1) (first + rounds) && p day))
unfolding days_up
among-days_up p zero first day = ground arith
among-days_up p (suc rounds) first day = elim (ℕ_discrete day first) [
  | yes same ↦ rw same (ground (arith, among-days_up p rounds (first + 1) first))
  | no other ↦ ground (arith, among-days_up p rounds (first + 1) day)
]

-- A day is among those of a range that pass a test just if it lies in the range and passes.
pub among-days_of :
    (p : Day → Bool) (first last day : Day)
    → among day (keep p (days_of first last)) ≡ (leb first day && (leb day last && p day))
unfolding days_of
among-days_of p first last day = ground (arith, among-days_up p (last + 1 - first) first day)

pub calendar_day-midnight : (day : Day) → calendar_day (midnight day) ≡ day
unfolding calendar_day local_seconds ◌+ℤ◌
calendar_day-midnight day = ground arith

keep_all : (ds : List Day) → keep (λ d. true) ds ≡ ds
keep_all [] = refl
keep_all (d ∷ ds) = ap (◌∷◌ d) (keep_all ds)

pub among-days_of_all :
    (first last day : Day) → among day (days_of first last) ≡ (leb first day && leb day last)
among-days_of_all first last day =
    ground (arith, among-days_of (λ d. true) first last day, keep_all (days_of first last))
