-- ===== src/Vacation/Service/Laws.antt =====
-- What an account of leave says.
use native.Mathlib.Nat.{add-zero}
use go_time_recording.Base.{
  ℕ, zero, suc, ◌+◌, ◌≡◌, ◌∙◌, refl, ap, arith, Bool, true, false, not, ◌&&◌, ◌||◌, List, [], ◌∷◌,
  ltb, ◌==◌, if◌then◌else◌, keep,
}
use go_time_recording.Calendar
use go_time_recording.Calendar.{Day}
use go_time_recording.Float.{Float64}
use go_time_recording.Float.Totals.{Totals}
use go_time_recording.Absence.{Absence}
use go_time_recording.Vacation.{VacationEntitlement, vacation_days, entitlement_in}
use go_time_recording.Vacation.Service.{tally_one, tally, carry}

module _ (F : Float64) where
  open F use {Number, zero_hours, add, sub, eq, settled}

  -- The leave of a list of absences, each added in its turn.
  abbrev pub leave_of : List Absence → Number → Number
  leave_of [] total = total
  leave_of (a ∷ rest) total = leave_of rest (add total (vacation_days F a))

  leave_of_if :
      (b : Bool) (a : Absence) (rest : List Absence) (total : Number)
      → leave_of rest (if b then add total (vacation_days F a) else total)
        ≡ leave_of (if b then a ∷ rest else rest) total
  leave_of_if true a rest total = refl
  leave_of_if false a rest total = refl

  module _ (today : Day) (worked : Day → Bool) where
    -- Leave of a year on a worked day, up to today and after it.
    abbrev pub is_leave : ℕ → Absence → Bool
    is_leave year a =
        Calendar.year a.day == year && not (eq (vacation_days F a) zero_hours || not (worked a.day))

    abbrev pub is_taken : ℕ → Absence → Bool
    is_taken year a = is_leave year a && not (ltb today a.day)

    abbrev pub is_planned : ℕ → Absence → Bool
    is_planned year a = is_leave year a && ltb today a.day

    tally_one-year :
        (year : ℕ) (a : Absence) (totals : Totals F × Totals F)
        → ((tally_one F today worked a totals).0 year
            ≡ (if is_taken year a then add (totals.0 year) (vacation_days F a) else totals.0 year))
          × ((tally_one F today worked a totals).1 year ≡ (
              if is_planned year a then add (totals.1 year) (vacation_days F a) else totals.1 year))
    unfolding tally_one
    tally_one-year year a totals = (ground arith, ground arith)

    -- What the loop over all the years' absences counts for a year is the leave of that year alone:
    -- as taken what lies on worked days up to today, as planned what lies on worked days after it.
    pub tally-leave_of :
        (year : ℕ) (away : List Absence) (totals : Totals F × Totals F)
        → ((tally F today worked away totals).0 year
            ≡ leave_of (keep (is_taken year) away) (totals.0 year))
          × ((tally F today worked away totals).1 year
              ≡ leave_of (keep (is_planned year) away) (totals.1 year))
    unfolding tally
    tally-leave_of year [] totals = (refl, refl)
    tally-leave_of year (a ∷ rest) totals =
        let (taken, planned) = tally-leave_of year rest (tally_one F today worked a totals) in
        let (one_taken, one_planned) = tally_one-year year a totals in
        (
          taken
              ∙ ap (leave_of (keep (is_taken year) rest)) one_taken
              ∙ leave_of_if (is_taken year a) a (keep (is_taken year) rest) (totals.0 year),
          planned
              ∙ ap (leave_of (keep (is_planned year) rest)) one_planned
              ∙ leave_of_if (is_planned year a) a (keep (is_planned year) rest) (totals.1 year),
        )

  module _ (entitlements : List (VacationEntitlement Number)) (taken planned : Totals F) where
    -- A year's leave left over is what it gave and what was carried into it, less what was taken and
    -- planned in it; it is carried into the next, whichever year the account begins with.
    pub carry-next :
        (rounds first : ℕ) (start : Number)
        → carry F entitlements taken planned (suc rounds) first start
          ≡ sub
              (sub
                (add
                  (entitlement_in F (first + rounds) entitlements).0
                  (carry F entitlements taken planned rounds first start))
                (taken (first + rounds)))
              (planned (first + rounds))
    unfolding carry
    carry-next zero first start = rw (add-zero first) refl
    carry-next (suc rounds) first start =
        let later : first + suc rounds ≡ first + 1 + rounds = omega arith in
        rw later (carry-next rounds (first + 1) _)
