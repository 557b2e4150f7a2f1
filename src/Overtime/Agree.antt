-- ===== src/Overtime/Agree.antt =====
-- The balance and the picture of a range agree about which days count and what they ask.
pub mod Ranges
use mathlib.Core.Path.{subst, sym}
use go_time_recording.Base.{
  ℕ, ◌≤◌, ◌≡◌, ◌⊎◌, inl, inr, ◌∙◌, ap, refl, arith, Bool, true, false, ◌&&◌, ◌||◌, Option, none,
  some, List, [], ◌∷◌, String, leb, ltb, ◌==◌, if◌then◌else◌, keep, map, All, Bool-cases,
}
use go_time_recording.Base.Distinct.{IsDistinct, keep-IsDistinct}
use go_time_recording.Base.Sort.{sort_by}
use go_time_recording.Calendar.{Day, Moment, calendar_day}
use go_time_recording.Calendar.Range.{days_of, among, among-days_of_all}
use go_time_recording.Calendar.Rising.{
  the_day, IsRising, rising_same, sort_by-IsRising, keep-IsRising, days_of-IsRising, among-sort_by,
  among-keep, sort_by-map,
}
use go_time_recording.Float.{Float64}
use go_time_recording.Float.Totals.{Totals, no_totals}
use go_time_recording.Timesheet.{Timesheet}
use go_time_recording.Overtime.{DayRules, rule_of}
use go_time_recording.Overtime.Booked.{booked_days, booked_hours}
use go_time_recording.Overtime.Booked.Laws.{
  LiesIn, booked_days-IsDistinct, booked_days-range, booked_hours-other,
}
use go_time_recording.Overtime.Balance.{
  OvertimeDay, date_of, candidates, overtime_day, counted_days,
}
use go_time_recording.Overtime.Balance.Laws.{
  everyone, candidates-IsDistinct, among-candidates, rule_of-counts, counted_days-map,
}
use go_time_recording.Overtime.Days.{RangeDay, range_day}

-- Go gives the keys of a map in an order of its own: the same keys, each once.
pub record IsReordering (order : List Day → List Day) : Type 0 where
  pub same_days : (ds : List Day) (d : Day) → among d (order ds) ≡ among d ds
  pub distinct : (ds : List Day) → IsDistinct the_day ds → IsDistinct the_day (order ds)

-- A day of a balance, as the picture shows it.
abbrev pub as_day : {H : Type 0} → OvertimeDay H → RangeDay H
as_day d = record {
  date = d.date;
  booked = d.booked;
  target = d.target;
  absence = d.absence;
  holiday = d.holiday;
  holiday_substitute = d.holiday_substitute;
  counts = true;
}

abbrev pub is_counted : {H : Type 0} → RangeDay H → Bool
is_counted d = d.counts

module _ (F : Float64) (order : List Day → List Day) (reorders : IsReordering order)
    (rules : DayRules F.Number) (first last : Day) (es : List (Timesheet F.Number)) where
  open F use {Number, zero_hours, lt}

  abbrev booked : Totals F
  booked = booked_hours F es (no_totals F)

  abbrev counts_on : Day → Bool
  counts_on d = (rule_of F rules d (booked d)).1

  abbrev asked : List Day
  asked = candidates rules.from rules.today first last (booked_days es [])

  asked-IsDistinct : IsDistinct the_day asked
  asked-IsDistinct =
      candidates-IsDistinct rules.today first last rules.from (booked_days es [])
        (booked_days-IsDistinct es [] tt)

  candidates_of :
      (d : Day)
      → among d asked
        ≡ (among d (booked_days es []) || everyone rules.from rules.today first last d)
  candidates_of d = among-candidates rules.today first last rules.from (booked_days es []) d

  everyone_outside :
      (from : Option Day) (d : Day)
      → (leb first d && leb d last) ≡ false
      → everyone from rules.today first last d ≡ false
  everyone_outside none d outside = refl
  everyone_outside (some from) d outside = ground arith

  module _ (nothing : lt zero_hours zero_hours ≡ false) (lie : All (LiesIn first last) es) where
    -- Of the days that count, those asked about are those of the range.
    asked-range : (d : Day) → counts_on d ≡ true → among d asked ≡ (leb first d && leb d last)
    asked-range d counts = elim (Bool-cases (among d (booked_days es []))) [
      | inl booked_on ↦
          ground (arith, booked_days-range first last d es [] lie booked_on, candidates_of d)
      | inr not_booked ↦ elim (Bool-cases (leb first d && leb d last)) [
        | inl inside ↦
            let none_booked = booked_hours-other F d es [] (no_totals F) not_booked in
            elim (rule_of-counts F rules first last d zero_hours (ground arith) (ground arith)
              (subst (λ h. (rule_of F rules d h).1 ≡ true) none_booked counts)) [
                | inl zero_booked ↦ cc
                | inr all ↦ candidates_of d ∙ rw not_booked (rw all (rw inside refl))
              ]
        | inr outside ↦
            candidates_of d ∙ rw not_booked (rw outside (everyone_outside rules.from d outside))
      ]
    ]

    same_counted :
        (d : Day) → (among d asked && counts_on d) ≡ (among d (days_of first last) && counts_on d)
    same_counted d = elim (Bool-cases (counts_on d)) [
      | inl counts ↦
          ap (λ b. b && counts_on d) (asked-range d counts ∙ sym (among-days_of_all first last d))
      | inr passed ↦ rw passed (ground arith)
    ]

    shown :
        (ds : List Day)
        → map as_day (map (overtime_day F rules booked) (keep counts_on ds))
          ≡ keep is_counted (map (range_day F rules booked) ds)
    shown [] = refl
    shown (d ∷ ds) = elim (Bool-cases (counts_on d)) [
      | inl counts ↦
          rw counts (ap (◌∷◌ (record (range_day F rules booked d) { counts = true })) (shown ds))
      | inr passed ↦ rw passed (shown ds)
    ]

    same_days : sort_by the_day (keep counts_on (order asked)) ≡ keep counts_on (days_of first last)
    same_days =
        rising_same (sort_by the_day (keep counts_on (order asked)))
          (keep counts_on (days_of first last))
          (sort_by-IsRising (keep counts_on (order asked)) (
            keep-IsDistinct the_day counts_on (order asked)
              (reorders.distinct asked asked-IsDistinct)))
          (keep-IsRising counts_on (days_of first last) (days_of-IsRising first last))
          (λ d.
            among-sort_by d (keep counts_on (order asked))
            ∙ among-keep counts_on d (order asked)
            ∙ ap (λ b. b && counts_on d) (reorders.same_days asked d)
            ∙ same_counted d
            ∙ sym (among-keep counts_on d (days_of first last)))

    -- What the picture shows of the days that count is the balance.
    pub same_picture :
        map as_day (sort_by date_of (counted_days F rules booked (order asked)))
        ≡ keep is_counted (map (range_day F rules booked) (days_of first last))
    same_picture =
        ap (λ l. map as_day (sort_by date_of l)) (counted_days-map F rules booked (order asked))
        ∙ ap (map as_day) (
            sort_by-map date_of (overtime_day F rules booked) (λ d. refl)
              (keep counts_on (order asked)))
        ∙ ap (λ l. map as_day (map (overtime_day F rules booked) l)) same_days
        ∙ shown (days_of first last)
