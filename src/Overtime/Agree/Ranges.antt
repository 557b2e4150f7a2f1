-- ===== src/Overtime/Agree/Ranges.antt =====
-- The balance of a range and the picture of the same range, as their operations answer them.
use mathlib.Core.Path.{subst, sym}
use go_time_recording.Base.{
  ℕ, ◌≡◌, ◌∙◌, ap, refl, Bool, false, List, [], ◌∷◌, String, ltb, ◌==◌, keep, map, All,
}
use go_time_recording.Base.Sort.{sort_by}
use go_time_recording.Calendar.{Day, Moment, calendar_day, midnight}
use go_time_recording.Calendar.Range.{days_of, calendar_day-midnight}
use go_time_recording.Errors.{Error, Result, ok, bind-ok, refuse_if-ok, ok_injective}
use go_time_recording.Float.{Float64}
use go_time_recording.Float.Totals.{no_totals}
use go_time_recording.Store
use go_time_recording.User.{User}
use go_time_recording.Timesheet.{Timesheet}
use go_time_recording.Booking.Checks.{start_of_day}
use go_time_recording.Absence.Service.{day_range}
use go_time_recording.Absence.Service.Laws.{IsRange, day_range-ok}
use go_time_recording.Overtime.{Times, DayRules, rules_for}
use go_time_recording.Overtime.Booked.{entries_in, booked_days, booked_hours}
use go_time_recording.Overtime.Booked.Laws.{AtMidnight, LiesIn, entries_in-days, entries_in-LiesIn}
use go_time_recording.Overtime.Balance.{OvertimeBalance, date_of, balance, candidates, counted_days}
use go_time_recording.Overtime.Balance.Laws.{IsDated, calendar_day-start_of_day}
use go_time_recording.Overtime.Days.{RangeDay, days, range_day}
use go_time_recording.Overtime.Agree.{IsReordering, as_day, is_counted, same_picture}

module _ (F : Float64) (found : String → String → Bool) (order : List Day → List Day) (today : Day)
    (user : ℕ) (from to : Moment) (times : Times F.Number) where
  open F use {Number, zero_hours, lt}

  abbrev entries_on : Day → Day → Result (List (Timesheet Number))
  entries_on first last =
      entries_in F found user (midnight first) (midnight last) times.booking.entries

  -- What a balance is made of.
  record IsBalance (b : OvertimeBalance Number) : Type 0 where
    u : User Number
    known : Store.get user times.booking.users ≡ ok u
    es : List (Timesheet Number)
    read :
        entries_in F found user (start_of_day from) (start_of_day to) times.booking.entries ≡ ok es
    rules : DayRules Number
    ruled : rules_for F today u (calendar_day from) (calendar_day to) times ≡ ok rules
    listed :
        b.days
        ≡ sort_by date_of (
            counted_days F rules (booked_hours F es (no_totals F)) (
              order (
                candidates rules.from rules.today
                  (calendar_day from)
                  (calendar_day to)
                  (booked_days es []))))

  balance-ok :
      (b : OvertimeBalance Number)
      → balance F found order today user from to times ≡ ok b
      → IsBalance b
  unfolding balance
  balance-ok b done =
      let (named, rest) = refuse_if-ok (user == 0) (Error.invalid_fields ("userId" ∷ [])) _ done in
      let (ordered, rest1) =
        refuse_if-ok (ltb to.seconds from.seconds) (Error.invalid "rangeInverted") _ rest in
      let (u, known, rest2) = bind-ok (Store.get user times.booking.users) _ rest1 in
      let (es, read, rest3) =
        bind-ok
          (entries_in F found user (start_of_day from) (start_of_day to) times.booking.entries) _
          rest2 in
      let (rules, ruled, end) =
        bind-ok (rules_for F today u (calendar_day from) (calendar_day to) times) _ rest3 in
      record {
        u = u;
        known = known;
        es = es;
        read = read;
        rules = rules;
        ruled = ruled;
        listed = sym (ap (λ x. x.days) (ok_injective end));
      }

  -- What a picture is made of.
  record IsPicture (ds : List (RangeDay Number)) : Type 0 where
    first : Day
    last : Day
    range : IsRange from to first last
    u : User Number
    known : Store.get user times.booking.users ≡ ok u
    es : List (Timesheet Number)
    read : entries_on first last ≡ ok es
    rules : DayRules Number
    ruled : rules_for F today u first last times ≡ ok rules
    listed : ds ≡ map (range_day F rules (booked_hours F es (no_totals F))) (days_of first last)

  days-ok :
      (ds : List (RangeDay Number)) → days F found today user from to times ≡ ok ds → IsPicture ds
  unfolding days
  days-ok ds done =
      let (named, rest) = refuse_if-ok (user == 0) (Error.invalid_fields ("userId" ∷ [])) _ done in
      let ((first, last), ranged, rest1) = bind-ok (day_range from to) _ rest in
      let (u, known, rest2) = bind-ok (Store.get user times.booking.users) _ rest1 in
      let (es, read, rest3) = bind-ok (entries_on first last) _ rest2 in
      let (rules, ruled, end) = bind-ok (rules_for F today u first last times) _ rest3 in
      record {
        first = first;
        last = last;
        range = day_range-ok from to first last ranged;
        u = u;
        known = known;
        es = es;
        read = read;
        rules = rules;
        ruled = ruled;
        listed = sym (ok_injective end);
      }

  module _ (dated : IsDated from) (dated' : IsDated to) where
    same_entries :
        entries_in F found user (start_of_day from) (start_of_day to) times.booking.entries
        ≡ entries_on (calendar_day from) (calendar_day to)
    same_entries =
        entries_in-days F found user times.booking.entries (start_of_day from) (start_of_day to)
        ∙ rw (calendar_day-start_of_day from dated) (rw (calendar_day-start_of_day to dated') refl)

    module _ (b : OvertimeBalance Number) (ds : List (RangeDay Number)) (m : IsBalance b)
        (p : IsPicture ds) where
      same_es : m.es ≡ p.es
      same_es =
          ok_injective
            (sym m.read ∙ same_entries ∙ rw (sym p.range.begins) (rw (sym p.range.ends) p.read))

      same_rules : m.rules ≡ p.rules
      same_rules = ok_injective (
          sym m.ruled
          ∙ ap (λ u. rules_for F today u (calendar_day from) (calendar_day to) times)
              (ok_injective (sym m.known ∙ p.known))
          ∙ rw (sym p.range.begins) (rw (sym p.range.ends) p.ruled))

      -- The balance's days, from what the picture is made of.
      balance_listed :
          b.days
          ≡ sort_by date_of (
              counted_days F p.rules (booked_hours F p.es (no_totals F)) (
                order (candidates p.rules.from p.rules.today p.first p.last (booked_days p.es []))))
      balance_listed =
          rw (sym same_es) (rw (sym same_rules) (rw p.range.begins (rw p.range.ends m.listed)))

  entries_on-LiesIn :
      (first last : Day) (es : List (Timesheet Number))
      → All (AtMidnight F found user times.booking.entries) (Store.all times.booking.entries.store)
      → entries_on first last ≡ ok es
      → All (LiesIn first last) es
  entries_on-LiesIn first last es stored read =
      subst (λ d. All (LiesIn d last) es) (calendar_day-midnight first)
        (subst (λ d. All (LiesIn (calendar_day (midnight first)) d) es) (calendar_day-midnight last)
          (entries_in-LiesIn F found user times.booking.entries (midnight first) (midnight last) es
            stored read))

  -- The days of a balance are the days of the picture of the same range that the picture says count,
  -- with the same hours booked and asked and the same absences and holidays, in the same order, in
  -- whatever order the map of candidates is walked. Every entry must be stored at midnight UTC of its
  -- day, zero hours must not be more than zero hours, and the ends of the range must lie far enough
  -- from the first day for the clock of their location.
  pub balance-days :
      (b : OvertimeBalance Number) (ds : List (RangeDay Number))
      → IsReordering order
      → lt zero_hours zero_hours ≡ false
      → IsDated from
      → IsDated to
      → All (AtMidnight F found user times.booking.entries) (Store.all times.booking.entries.store)
      → balance F found order today user from to times ≡ ok b
      → days F found today user from to times ≡ ok ds
      → map as_day b.days ≡ keep is_counted ds
  balance-days b ds reorders nothing dated dated' stored done drawn =
      let m = balance-ok b done in
      let p = days-ok ds drawn in
      ap (map as_day) (balance_listed dated dated' b ds m p)
      ∙ same_picture F order reorders p.rules p.first p.last p.es nothing
          (entries_on-LiesIn p.first p.last p.es stored p.read)
      ∙ ap (keep is_counted) (sym p.listed)
