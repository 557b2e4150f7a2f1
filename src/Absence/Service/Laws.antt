-- ===== src/Absence/Service/Laws.antt =====
-- What recording and removing days away change.
use native.Mathlib.Decide.{ℕ_discrete}
use mathlib.Core.Path.{subst}
use go_time_recording.Base.{
  ℕ, ◌+◌, ◌-◌, ◌≤◌, ◌≡◌, ◌≢◌, ◌∙◌, ◌⊎◌, inl, inr, refl, ap, arith, Bool, true, not, ◌&&◌, none,
  some, List, [], ◌∷◌, String, ltb, leb, ◌==◌, ◌++◌, if◌then◌else◌, keep, Option-cases,
}
use go_time_recording.Base.Keyed.{put, take_out}
use go_time_recording.Base.Keyed.Laws.{
  find-put, find-take_out, take_out-found, take_out-IsKeyed, is_there,
}
use go_time_recording.Calendar.{Day, Moment, calendar_day, on_the_calendar}
use go_time_recording.Calendar.Range.{days_of, among, among-days_of}
use go_time_recording.Errors.{Error, Result, ok, err, bind-ok, check-ok, refuse_if-ok, ok_injective}
use go_time_recording.Float.{Float64}
use go_time_recording.Holiday.{Found}
use go_time_recording.Store
use go_time_recording.Store.{Store}
use go_time_recording.User.{User, effective_daily_target}
use go_time_recording.Schedule.{WeekHours, WorkSchedule, default_week, for_user, target_on}
use go_time_recording.Schedule.Service.{refuse_fields, field_unless}
use go_time_recording.Absence.{Absence, user_of, day_of, valid_absence_kind, save, delete}
use go_time_recording.Absence.Laws.{absence_on, IsValid}
use go_time_recording.Absence.Service.{
  max_days, day_range, holidays_of, is_holiday, is_worked, away_on, some_recorded, record_absences,
  remove,
}

-- An accepted range ends no earlier than it begins and spans at most the most days.
pub record IsRange (from to : Moment) (first last : Day) : Type 0 where
  pub begins : first ≡ calendar_day from
  pub ends : last ≡ calendar_day to
  pub ordered : first ≤ last
  pub bounded : last - first + 1 ≤ max_days

pub day_range-ok :
    (from to : Moment) (first last : Day)
    → day_range from to ≡ ok (first, last)
    → IsRange from to first last
unfolding day_range
day_range-ok from to first last done =
    let (ordered, rest) =
      refuse_if-ok (ltb (calendar_day to) (calendar_day from)) (Error.invalid "rangeInverted") _
        done in
    let (bounded, end) =
      refuse_if-ok (ltb max_days (calendar_day to - calendar_day from + 1))
        (Error.invalid "rangeTooLong") _ rest in
    let same = ok_injective end in
    subst (λ r. IsRange from to r.0 r.1) same
      (record { begins = refl; ends = refl; ordered = ground arith; bounded = ground arith })

range_fields-ok :
    (first second third : Bool)
    → refuse_fields
        (field_unless first "from" ++ (field_unless second "to" ++ field_unless third "kind"))
      ≡ ok tt
    → (first ≡ true) × (second ≡ true) × (third ≡ true)
range_fields-ok first second third h = ground arith

some_recorded-nonempty :
    (F : Float64) (recorded : List Absence) → some_recorded F recorded ≡ ok tt → recorded ≢ []
some_recorded-nonempty F [] h = cc
some_recorded-nonempty F (a ∷ rest) h = λ e. cc

module _ (F : Float64) where
  open F use {Number, zero_hours, le}

  is_worked-not :
      (holidays : Found) (schedules : List (WorkSchedule Number)) (before : WeekHours Number)
      (day : Day)
      → is_worked F holidays schedules before day
        ≡ (not (is_holiday (holidays day)) && not (le (target_on day schedules before) zero_hours))
  unfolding is_worked
  is_worked-not holidays schedules before day = ground arith

  abbrev pub away : ℕ → String → Day → Absence
  away user kind day = record { user_id = user; day = day; kind = kind }

  save-away_on :
      (user : ℕ) (kind : String) (days : List Day) (absences : List Absence) (v : ℕ) (day : Day)
      → absence_on v day (save (away_on F user kind days) absences) ≡ (
          if user == v && among day days
          then some (away user kind day)
          else absence_on v day absences)
  unfolding save
  save-away_on user kind [] absences v day = ground arith
  save-away_on user kind (d ∷ ds) absences v day = elim (ℕ_discrete day d) [
    | yes same ↦ rw same (
        save-away_on user kind ds (put user_of day_of (away user kind d) absences) v d
        ∙ ground (arith, find-put user_of day_of (away user kind d) absences v d))
    | no other ↦
        save-away_on user kind ds (put user_of day_of (away user kind d) absences) v day
        ∙ ground (arith, find-put user_of day_of (away user kind d) absences v day)
  ]

  -- Days recorded as away: those of the range that are worked, at least one of them.
  pub record IsRecorded (place : Result String) (user : ℕ) (from to : Moment) (kind : String)
      (users : Store (User Number)) (schedules : List (WorkSchedule Number))
      (absences recorded after : List Absence) : Type 0 where
    pub valid_kind : valid_absence_kind kind ≡ true
    pub on_calendar : (on_the_calendar from ≡ true) × (on_the_calendar to ≡ true)
    pub u : User Number
    pub known : Store.get user users ≡ ok u
    pub first : Day
    pub last : Day
    pub range : IsRange from to first last
    pub holidays : Found
    pub kept : holidays_of place u first last ≡ ok holidays
    pub nonempty : recorded ≢ []
    pub written :
        (v : ℕ) (day : Day)
        → absence_on v day after ≡ (
            if user == v
              && (leb first day
                  && (leb day last
                      && (not (is_holiday (holidays day))
                          && not (
                              le
                                (target_on day
                                  (for_user user schedules)
                                  (default_week F (effective_daily_target F u)))
                                zero_hours))))
            then some (away user kind day)
            else absence_on v day absences)

  -- Days away that are recorded are of a known kind, in a range that is in order and not too long,
  -- and there is at least one. Afterwards just the worked days of the range, those that are no
  -- holiday and that the person's week asks something of, have the new absence; on every other day,
  -- and for everybody else, is what was recorded before.
  pub record_absences-ok :
      (place : Result String) (user : ℕ) (from to : Moment) (kind : String)
      (users : Store (User Number)) (schedules : List (WorkSchedule Number))
      (absences recorded after : List Absence)
      → record_absences F place user from to kind users schedules absences ≡ ok (recorded, after)
      → IsRecorded place user from to kind users schedules absences recorded after
  unfolding record_absences
  record_absences-ok place user from to kind users schedules absences recorded after done =
      let (fields, rest) = check-ok (refuse_fields _) _ done in
      let ((first, last), ranged, rest1) = bind-ok (day_range from to) _ rest in
      let (u, known, rest2) = bind-ok (Store.get user users) _ rest1 in
      let (holidays, kept, rest3) = bind-ok (holidays_of place u first last) _ rest2 in
      let worked =
        is_worked F holidays (for_user user schedules)
          (default_week F (effective_daily_target F u)) in
      let days = keep worked (days_of first last) in
      let (nonempty, end) = check-ok (some_recorded F (away_on F user kind days)) _ rest3 in
      let (starts, stops, valid_kind) =
        range_fields-ok (on_the_calendar from) (on_the_calendar to) (valid_absence_kind kind)
          fields in
      subst (λ r. IsRecorded place user from to kind users schedules absences r.0 r.1)
        (ok_injective end)
        (record {
          valid_kind = valid_kind;
          on_calendar = (starts, stops);
          u = u;
          known = known;
          first = first;
          last = last;
          range = day_range-ok from to first last ranged;
          holidays = holidays;
          kept = kept;
          nonempty = λ e. some_recorded-nonempty F _ nonempty e;
          written = λ v day.
              save-away_on user kind days absences v day
              ∙ ap
                  (λ b.
                    if user == v && b then some (away user kind day) else absence_on v day absences)
                  (among-days_of worked first last day
                    ∙ ap (λ w. leb first day && (leb day last && w))
                        (is_worked-not holidays (for_user user schedules) _ day));
        })

-- Taking a day back is refused just where nothing is recorded on it. Else nothing is recorded on it
-- then, and every other day and person has what was recorded before. The repository must hold at
-- most one absence for a person and a day, which it then does again.
pub remove-absence_on :
    (user : ℕ) (day : Moment) (absences : List Absence)
    → IsValid absences
    → ((absence_on user (calendar_day day) absences ≡ none)
        × (remove user day absences ≡ err (Error.not_found "absence" (calendar_day day))))
      ⊎ ((left : List Absence) × (remove user day absences ≡ ok left)
          × (absence_on user (calendar_day day) absences ≢ none)
          × IsValid left
          × ((v : ℕ) (d : Day)
              → absence_on v d left
                ≡ (if user == v && calendar_day day == d then none else absence_on v d absences)))
unfolding remove delete
remove-absence_on user day absences valid =
    let d = calendar_day day in
    let there = take_out-found user_of day_of user d absences in
    elim (Option-cases (absence_on user d absences)) [
      | inl nothing ↦ inl (nothing, rw (there ∙ ap is_there nothing) refl)
      | inr (a, recorded) ↦ inr (
        (take_out user_of day_of user d absences).1,
        rw (there ∙ ap is_there recorded) refl,
        (λ e. cc),
        take_out-IsKeyed user_of day_of user d absences valid,
        λ v k. find-take_out user_of day_of user d absences v k valid,
      )
    ]
