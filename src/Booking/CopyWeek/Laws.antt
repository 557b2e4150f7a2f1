-- ===== src/Booking/CopyWeek/Laws.antt =====
-- What a copied week may contain.
use mathlib.Core.Path.{subst, sym}
use go_time_recording.Base.{
  ℕ, ◌+◌, ◌≡◌, ◌∙◌, refl, arith, Bool, true, false, not, ◌&&◌, List, [], ◌++◌, String, ◌==◌, length,
  count, All,
}
use go_time_recording.Base.Order.{sort_less}
use go_time_recording.Calendar.{Moment, calendar_day, on_the_calendar}
use go_time_recording.Errors.{Result, ok, bind-ok, check-ok, ok_injective}
use go_time_recording.Float.{Float64}
use go_time_recording.Store
use go_time_recording.Timesheet.{Timesheet}
use go_time_recording.Timesheet.Repository.{get_by_filter}
use go_time_recording.Booking.Checks.{Booking, entries_or_panic}
use go_time_recording.Booking.CopyWeek.{
  WeekCopy, none_invalid, field_if_not, is_monday, week_filter, days_booked, earlier, some_booked,
  nothing_copied, save_many, copy_week, copy_all,
}
use go_time_recording.Booking.CopyWeek.Rounds.{
  is_left_out, copies_of, IsBookableCopy, AllWithinCap, copy_all-IsRun,
}

from_nothing : (n : ℕ) → 0 + n ≡ n
from_nothing n = omega arith

weeks-ok :
    (start_there start_monday end_there end_monday same : Bool)
    → none_invalid (
        field_if_not (start_there && start_monday) "from"
        ++ field_if_not (end_there && (end_monday && not same)) "to")
      ≡ ok tt
    → (start_monday ≡ true) × (end_monday ≡ true) × (same ≡ false)
weeks-ok start_there start_monday end_there end_monday same h = ground arith

module _ (F : Float64) (found : String → String → Bool) (daily_cap : F.Number) (now user : ℕ)
    (from to : Moment) (b : Booking F.Number) where
  open F use {Number}

  abbrev week_entries : Moment → Result (List (Timesheet Number))
  week_entries start =
      entries_or_panic F (get_by_filter found (week_filter user (calendar_day start)) b.entries)

  -- A week that was copied.
  pub record IsWeekCopied (answer : WeekCopy Number) (after : Booking Number) : Type 0 where
    pub mondays : (is_monday from ≡ true) × (is_monday to ≡ true)
    pub other_week : (calendar_day to == calendar_day from) ≡ false
    pub source : List (Timesheet Number)
    pub source_read : week_entries from ≡ ok source
    pub target : List (Timesheet Number)
    pub target_read : week_entries to ≡ ok target
    pub copies : List (Timesheet Number)
    pub written : after ≡ record b { entries = save_many now copies b.entries }
    pub each_copied :
        copies
        ≡ copies_of F found daily_cap user
            (calendar_day from)
            (calendar_day to)
            (days_booked target)
            b
            (sort_less earlier source)
    pub each_bookable :
        All
          (IsBookableCopy F found daily_cap user
            (calendar_day from)
            (calendar_day to)
            (days_booked target)
            b)
          copies
    pub each_within_cap :
        AllWithinCap F found daily_cap user
          (calendar_day from)
          (calendar_day to)
          (days_booked target)
          b
          []
          copies
    pub counted : answer.copied ≡ length copies
    pub left_out :
        answer.closed
        ≡ count
            (is_left_out F found daily_cap user
              (calendar_day from)
              (calendar_day to)
              (days_booked target)
              b)
            (sort_less earlier source)

  -- A week that is copied goes from a Monday to another. Written are just copies of its entries, in
  -- the order of their days, each on the day of the other week that answers its own: of those on whose
  -- day there nothing was booked and whose project, if they name one, still takes bookings. Each copy
  -- has a day of the calendar, hours within the bounds and a description that fits, and stays within
  -- its owner's daily limit together with the day's entries and the copies put on that day before it.
  -- The entries left out for their closed projects are counted, and nothing else is changed.
  pub copy_week-ok :
      (answer : WeekCopy Number) (after : Booking Number)
      → copy_week F found daily_cap now user from to b ≡ ok (answer, after)
      → IsWeekCopied answer after
  unfolding copy_week
  copy_week-ok answer after done =
      let (valid, rest) = check-ok (none_invalid _) _ done in
      let (u, known, rest1) = bind-ok (Store.get user b.users) _ rest in
      let (source, source_read, rest2) = bind-ok (week_entries from) _ rest1 in
      let (nonempty, rest3) = check-ok (some_booked F source) _ rest2 in
      let (target, target_read, rest4) = bind-ok (week_entries to) _ rest3 in
      let (p, looped, end) =
        bind-ok
          (copy_all F found daily_cap user (calendar_day from) (calendar_day to)
            (days_booked target) b (sort_less earlier source) (nothing_copied F))
          _ rest4 in
      let run =
        copy_all-IsRun F found daily_cap user (calendar_day from) (calendar_day to)
          (days_booked target) b (sort_less earlier source) (nothing_copied F) p looped in
      let (start, stop, other) =
        weeks-ok (on_the_calendar from) (is_monday from) (on_the_calendar to) (is_monday to)
          (calendar_day to == calendar_day from) valid in
      subst (λ r. IsWeekCopied r.0 r.1) (ok_injective end)
        (record {
          mondays = (start, stop);
          other_week = other;
          source = source;
          source_read = source_read;
          target = target;
          target_read = target_read;
          copies = p.copies;
          written = refl;
          each_copied = run.adds_copies;
          each_bookable = run.bookable tt;
          each_within_cap =
              subst
                (AllWithinCap F found daily_cap user (calendar_day from) (calendar_day to)
                  (days_booked target) b [])
                (sym run.adds_copies) (run.budgeted (λ day. refl)).1;
          counted = refl;
          left_out = run.leaves_out ∙ from_nothing _;
        })
