-- ===== src/Overtime/Booked/Laws.antt =====
-- The map of booked hours: its keys are the days of its entries, and what it does not hold is zero.
use native.Mathlib.Decide.{ℕ_discrete}
use mathlib.Core.Path.{subst}
use go_time_recording.Base.{
  ℕ, ◌≤◌, ◌≡◌, ◌≢◌, ◌∙◌, refl, arith, Bool, true, false, ◌&&◌, ◌||◌, List, [], ◌∷◌, ◌++◌, String,
  leb, ◌==◌, All, Bool-cases, All-selected, inl, inr,
}
use go_time_recording.Base.Order.{sort_less-All}
use go_time_recording.Base.Distinct.{IsDistinct, IsDistinct-append_one}
use go_time_recording.Calendar.{Day, Moment, calendar_day, midnight}
use go_time_recording.Calendar.Range.{among, calendar_day-midnight}
use go_time_recording.Calendar.Rising.{the_day}
use go_time_recording.Errors.{ok, ok_injective}
use go_time_recording.Float.{Float64}
use go_time_recording.Float.Totals.{Totals, add_at}
use go_time_recording.Store
use go_time_recording.Timesheet.{Timesheet}
use go_time_recording.Timesheet.Filter.{
  matches_filter, over_whole_days, page, first_second, last_second,
}
use go_time_recording.Timesheet.Filter.Laws.{matches_filter-over_whole_days}
use go_time_recording.Timesheet.Repository.{TimesheetRepository, get_by_filter, newer}
use go_time_recording.Overtime.Booked.{add_day, booked_days, booked_hours, range_filter, entries_in}

among-append : (d x : Day) (ds : List Day) → among d (ds ++ x ∷ []) ≡ (among d ds || d == x)
among-append d x [] = ground arith
among-append d x (y ∷ ds) = ground (arith, among-append d x ds)

pub among-add_day : (d x : Day) (ds : List Day) → among d (add_day x ds) ≡ (among d ds || d == x)
among-add_day d x ds = elim (ℕ_discrete d x) [
  | yes here ↦ rw here (ground (arith, among-append x x ds))
  | no other ↦ ground (arith, among-append d x ds)
]

not_among : (x : Day) (ds : List Day) → among x ds ≡ false → All (λ y. x ≢ y) ds
not_among x [] h = tt
not_among x (y ∷ ds) h = ground (arith, not_among x ds)

pub add_day-IsDistinct :
    (x : Day) (ds : List Day) → IsDistinct the_day ds → IsDistinct the_day (add_day x ds)
add_day-IsDistinct x ds distinct = elim (Bool-cases (among x ds)) [
  | inl here ↦ rw here distinct
  | inr new ↦ rw new (IsDistinct-append_one the_day ds x distinct (not_among x ds new))
]

module _ {H : Type 0} where
  pub booked_days-IsDistinct :
      (es : List (Timesheet H)) (ds : List Day)
      → IsDistinct the_day ds
      → IsDistinct the_day (booked_days es ds)
  booked_days-IsDistinct [] ds distinct = distinct
  booked_days-IsDistinct (t ∷ rest) ds distinct =
      booked_days-IsDistinct rest _ (add_day-IsDistinct (calendar_day t.date) ds distinct)

  abbrev pub LiesIn : Day → Day → Timesheet H → Type 0
  LiesIn first last t = (first ≤ calendar_day t.date) × (calendar_day t.date ≤ last)

  -- Keys lie in the range that the entries lie in.
  pub booked_days-range :
      (first last d : Day) (es : List (Timesheet H)) (ds : List Day)
      → All (LiesIn first last) es
      → among d (booked_days es ds) ≡ true
      → (among d ds || (leb first d && leb d last)) ≡ true
  booked_days-range first last d [] ds h e = ground arith
  booked_days-range first last d (t ∷ rest) ds h e = ground (
    arith,
    booked_days-range first last d rest (add_day (calendar_day t.date) ds) h.1 e,
    among-add_day d (calendar_day t.date) ds,
  )

  booked_days-keeps :
      (d : Day) (es : List (Timesheet H)) (ds : List Day)
      → among d ds ≡ true
      → among d (booked_days es ds) ≡ true
  booked_days-keeps d [] ds h = h
  booked_days-keeps d (t ∷ rest) ds h =
      booked_days-keeps d rest _ (among-add_day d (calendar_day t.date) ds ∙ ground arith)

module _ (F : Float64) where
  open F use {Number}

  pub booked_hours-other :
      (d : Day) (es : List (Timesheet Number)) (ds : List Day) (totals : Totals F)
      → among d (booked_days es ds) ≡ false
      → booked_hours F es totals d ≡ totals d
  booked_hours-other d [] ds totals h = refl
  booked_hours-other d (t ∷ rest) ds totals h =
      let day = calendar_day t.date in
      booked_hours-other d rest (add_day day ds) (add_at F day t.duration_hours totals) h
      ∙ ground (arith, booked_days-keeps d rest (add_day day ds), among-add_day d day ds)

  module _ (found : String → String → Bool) (user : ℕ) (r : TimesheetRepository Number) where
    -- Every entry is stored at midnight UTC of a day.
    abbrev pub AtMidnight : Timesheet Number → Type 0
    AtMidnight t = (day : Day) × (t.date ≡ midnight day)

    -- The entries of a range depend on the days of its ends.
    pub entries_in-days :
        (start end : Moment)
        → entries_in F found user start end r
          ≡ entries_in F found user (midnight (calendar_day start)) (midnight (calendar_day end)) r
    unfolding get_by_filter over_whole_days first_second last_second
    entries_in-days start end =
        rw (calendar_day-midnight (calendar_day start))
          (rw (calendar_day-midnight (calendar_day end)) refl)

    selected-LiesIn :
        (start end : Moment) (t : Timesheet Number)
        → AtMidnight t
        → matches_filter found t (over_whole_days (range_filter user start end)) ≡ true
        → LiesIn (calendar_day start) (calendar_day end) t
    selected-LiesIn start end t (day, at) h = ground (
      arith,
      matches_filter-over_whole_days found t (range_filter user start end) day at,
      at,
      calendar_day-midnight day,
    )

    pub entries_in-LiesIn :
        (start end : Moment) (es : List (Timesheet Number))
        → All AtMidnight (Store.all r.store)
        → entries_in F found user start end r ≡ ok es
        → All (LiesIn (calendar_day start) (calendar_day end)) es
    unfolding get_by_filter page
    entries_in-LiesIn start end es stored done =
        subst (All (LiesIn (calendar_day start) (calendar_day end))) (ok_injective done) (
          sort_less-All newer (LiesIn (calendar_day start) (calendar_day end)) _ (
            All-selected AtMidnight (LiesIn (calendar_day start) (calendar_day end)) _
              (selected-LiesIn start end) (Store.all r.store) stored))
