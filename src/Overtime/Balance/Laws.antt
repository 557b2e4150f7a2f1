-- ===== src/Overtime/Balance/Laws.antt =====
-- Which days the balance asks about, and which of them count.
use go_time_recording.Base.{
  ◌*◌, ◌≤◌, ◌≡◌, ◌⊎◌, inl, inr, ap, refl, arith, Bool, true, false, ◌&&◌, ◌||◌, Option, none, some,
  List, [], ◌∷◌, leb, keep, map, Bool-cases, Option-cases,
}
use go_time_recording.Base.Int.{pos_part, ◌+ℤ◌, ◌-ℤ◌}
use go_time_recording.Base.Distinct.{IsDistinct}
use go_time_recording.Calendar.{Day, Moment, calendar_day, local_seconds, seconds_per_day}
use go_time_recording.Calendar.Range.{days_of, among, among-days_of_all}
use go_time_recording.Calendar.Rising.{the_day}
use go_time_recording.Float.{Float64}
use go_time_recording.Float.Totals.{Totals}
use go_time_recording.Booking.Checks.{start_of_day}
use go_time_recording.Overtime.{DayRules, rule_of}
use go_time_recording.Overtime.Booked.{add_day}
use go_time_recording.Overtime.Booked.Laws.{add_day-IsDistinct, among-add_day}
use go_time_recording.Overtime.Balance.{
  latest, earliest, add_days, candidates, overtime_day, counted_days,
}

-- A moment whose day is far enough from the first for the clock of its location.
abbrev pub IsDated : Moment → Type 0
IsDated t = pos_part t.offset ≤ calendar_day t * seconds_per_day

pub calendar_day-start_of_day :
    (t : Moment) → IsDated t → calendar_day (start_of_day t) ≡ calendar_day t
unfolding calendar_day local_seconds start_of_day ◌+ℤ◌ ◌-ℤ◌
calendar_day-start_of_day t dated = ground arith

add_days-IsDistinct :
    (new ds : List Day) → IsDistinct the_day ds → IsDistinct the_day (add_days new ds)
add_days-IsDistinct [] ds h = h
add_days-IsDistinct (d ∷ new) ds h =
    add_days-IsDistinct new (add_day d ds) (add_day-IsDistinct d ds h)

among-add_days :
    (d : Day) (new ds : List Day) → among d (add_days new ds) ≡ (among d ds || among d new)
among-add_days d [] ds = ground arith
among-add_days d (x ∷ new) ds =
    ground (arith, among-add_days d new (add_day x ds), among-add_day d x ds)

-- From the day that every day counts from, in the range and up to today.
abbrev pub everyone : Option Day → Day → Day → Day → Day → Bool
everyone none today first last d = false
everyone (some from) today first last d = leb from d && (leb first d && (leb d last && leb d today))

module _ (today first last : Day) where
  pub candidates-IsDistinct :
      (from : Option Day) (booked : List Day)
      → IsDistinct the_day booked
      → IsDistinct the_day (candidates from today first last booked)
  candidates-IsDistinct none booked h = h
  candidates-IsDistinct (some from) booked h =
      add_days-IsDistinct (days_of (latest first from) (earliest last today)) booked h

  pub among-candidates :
      (from : Option Day) (booked : List Day) (d : Day)
      → among d (candidates from today first last booked)
        ≡ (among d booked || everyone from today first last d)
  unfolding latest earliest
  among-candidates none booked d = ground arith
  among-candidates (some from) booked d = ground (
    arith,
    among-add_days d (days_of (latest first from) (earliest last today)) booked,
    among-days_of_all (latest first from) (earliest last today) d,
  )

module _ (F : Float64) where
  open F use {Number, zero_hours, lt}

  -- A day that counts was booked on, or is one of those that all count.
  pub rule_of-counts :
      (rules : DayRules Number) (first last day : Day) (booked : Number)
      → first ≤ day
      → day ≤ last
      → (rule_of F rules day booked).1 ≡ true
      → (lt zero_hours booked ≡ true) ⊎ (everyone rules.from rules.today first last day ≡ true)
  unfolding rule_of
  rule_of-counts rules first last day booked lo hi counts = elim (Option-cases rules.from) [
    | inl chosen_none ↦ let counts' = rw chosen_none at counts in inl counts'
    | inr (from, chosen) ↦
        let counts' = rw chosen at counts in
        elim (Bool-cases (lt zero_hours booked)) [
          | inl some_booked ↦ inl some_booked
          | inr none_booked ↦ inr (rw chosen (ground arith))
        ]
  ]

  pub counted_days-map :
      (rules : DayRules Number) (booked : Totals F) (ds : List Day)
      → counted_days F rules booked ds
        ≡ map (overtime_day F rules booked) (keep (λ d. (rule_of F rules d (booked d)).1) ds)
  unfolding counted_days
  counted_days-map rules booked [] = refl
  counted_days-map rules booked (d ∷ ds) = elim (Bool-cases (rule_of F rules d (booked d)).1) [
    | inl counts ↦
        rw counts (ap (◌∷◌ (overtime_day F rules booked d)) (counted_days-map rules booked ds))
    | inr passed ↦ rw passed (counted_days-map rules booked ds)
  ]
