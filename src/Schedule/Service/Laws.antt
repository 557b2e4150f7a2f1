-- ===== src/Schedule/Service/Laws.antt =====
-- What planning a week and taking a plan back change of what the days ask.
use mathlib.Core.Path.{subst}
use go_time_recording.Base.{
  ℕ, ◌≡◌, ◌⊎◌, Option-cases, ◌∙◌, ap, arith, refl, Bool, true, false, Option, none, some, List,
  ◌==◌, ◌++◌, if◌then◌else◌, inl, inr,
}
use go_time_recording.Base.Keyed.{IsKeyed, take_out}
use go_time_recording.Base.Keyed.Laws.{
  find-put, put-IsKeyed, find-take_out, take_out-found, take_out-IsKeyed, is_there,
}
use go_time_recording.Calendar.{Day, Moment, calendar_day, on_the_calendar}
use go_time_recording.Errors.{Error, ok, err, bind-ok, check-ok, refuse_if-ok, ok_injective}
use go_time_recording.Float.{Float64}
use go_time_recording.Store
use go_time_recording.Store.{Store}
use go_time_recording.User.{User}
use go_time_recording.Schedule.{
  WeekHours, WorkSchedule, on, figures, valid, target_on, for_user, save, delete, user_of, from_of,
}
use go_time_recording.Schedule.Target.{Starts, start_of, week_on, week_on_same, target_on-for_user}
use go_time_recording.Schedule.Service.{refuse_fields, field_unless, remove, exceeds, plan}

module _ {H : Type 0} where
  -- What starts on each day, with one day's start put in its place.
  abbrev pub starting : Day → Option (WorkSchedule H) → Starts H → Starts H
  starting day plan starts k = if day == k then plan else starts k

  target-save :
      (s : WorkSchedule H) (schedules : List (WorkSchedule H)) (day : Day) (before : WeekHours H)
      → IsKeyed user_of from_of schedules
      → target_on day (for_user s.user_id (save s schedules)) before
        ≡ on
            (week_on day (starting s.valid_from (some s) (start_of s.user_id schedules)) before)
            day
  unfolding save
  target-save s schedules day before keyed =
      target_on-for_user s.user_id day (save s schedules) before
        (put-IsKeyed user_of from_of s schedules keyed)
      ∙ ap (λ w. on w day)
          (week_on_same day _ _ before
            (λ k. ground (arith, find-put user_of from_of s schedules s.user_id k)))

  -- Taking a plan back is refused just where there is none from that day. Else every day asks what
  -- it would ask if no plan started on that day, so that the plan before it is in force again. The
  -- repository must hold at most one plan for a user and a day, which it then does again.
  pub remove-target :
      (user : ℕ) (from : Moment) (schedules : List (WorkSchedule H))
      → IsKeyed user_of from_of schedules
      → ((start_of user schedules (calendar_day from) ≡ none)
          × (remove user from schedules ≡ err (Error.not_found "schedule" (calendar_day from))))
        ⊎ ((s : WorkSchedule H) × (start_of user schedules (calendar_day from) ≡ some s)
            × (left : List (WorkSchedule H)) × (remove user from schedules ≡ ok left)
            × IsKeyed user_of from_of left
            × ((day : Day) (before : WeekHours H)
                → target_on day (for_user user left) before
                  ≡ on
                      (week_on day
                        (starting (calendar_day from) none (start_of user schedules))
                        before)
                      day))
  unfolding remove delete
  remove-target user from schedules keyed =
      let day = calendar_day from in
      let there = take_out-found user_of from_of user day schedules in
      let left = (take_out user_of from_of user day schedules).1 in
      elim (Option-cases (start_of user schedules day)) [
        | inl none_starts ↦ inl (none_starts, rw (there ∙ ap is_there none_starts) refl)
        | inr (s, starts) ↦ inr (
          s,
          starts,
          left,
          rw (there ∙ ap is_there starts) refl,
          take_out-IsKeyed user_of from_of user day schedules keyed,
          λ d before.
              target_on-for_user user d left before
                (take_out-IsKeyed user_of from_of user day schedules keyed)
              ∙ ap (λ w. on w d)
                  (week_on_same d _ _ before (λ k.
                    ground (arith, find-take_out user_of from_of user day schedules user k keyed))),
        )
      ]

module _ (F : Float64) where
  open F use {Number, zero_hours, lt}

  fields-ok :
      (first second : Bool)
      → refuse_fields (field_unless first "validFrom" ++ field_unless second "hours") ≡ ok tt
      → (first ≡ true) × (second ≡ true)
  fields-ok first second h = ground arith

  -- A plan that was accepted.
  pub record IsPlanned (user : ℕ) (from : Moment) (hours : WeekHours Number)
      (users : Store (User Number)) (schedules : List (WorkSchedule Number))
      (s : WorkSchedule Number) (after : List (WorkSchedule Number)) : Type 0 where
    pub on_calendar : on_the_calendar from ≡ true
    pub fits : valid F hours ≡ true
    pub known :
        (u : User Number) × (Store.get user users ≡ ok u)
        × ((if lt zero_hours u.max_daily_hours
              then exceeds F u.max_daily_hours (figures hours)
              else false)
            ≡ false)
    pub starts : s.valid_from ≡ calendar_day from
    pub holds : s.hours ≡ hours
    pub owned : s.user_id ≡ user
    pub keyed : IsKeyed user_of from_of after
    pub targets :
        (day : Day) (before : WeekHours Number)
        → target_on day (for_user user after) before
          ≡ on
              (week_on day (starting (calendar_day from) (some s) (start_of user schedules)) before)
              day

  -- A plan that is accepted is for a day of the calendar, of figures that a day can hold and that
  -- stay within its owner's daily maximum, where they have one. From then on every day asks what it
  -- asks with the plan starting on its day, and what other plan started then replaced. The
  -- repository must hold at most one plan for a user and a day, which it then does again.
  pub plan-target :
      (user : ℕ) (from : Moment) (hours : WeekHours Number) (users : Store (User Number))
      (schedules : List (WorkSchedule Number)) (s : WorkSchedule Number)
      (after : List (WorkSchedule Number))
      → IsKeyed user_of from_of schedules
      → plan F user from hours users schedules ≡ ok (s, after)
      → IsPlanned user from hours users schedules s after
  unfolding plan
  plan-target user from hours users schedules s after keyed done =
      let (accepted, rest) = check-ok (refuse_fields _) _ done in
      let (u, got, rest') = bind-ok (Store.get user users) _ rest in
      let (within, end) = refuse_if-ok _ (Error.invalid "targetOverMaximum") _ rest' in
      let made = ok_injective end in
      let (on_calendar, fits) = fields-ok (on_the_calendar from) (valid F hours) accepted in
      subst (λ r. IsPlanned user from hours users schedules r.0 r.1) made
        (record {
          on_calendar = on_calendar;
          fits = fits;
          known = (u, got, within);
          starts = refl;
          holds = refl;
          owned = refl;
          keyed = unfold save in put-IsKeyed user_of from_of _ schedules keyed;
          targets = λ day before. target-save _ schedules day before keyed;
        })
