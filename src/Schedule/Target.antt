-- ===== src/Schedule/Target.antt =====
-- The loop of `TargetOn` against a search backwards from the day for one that a plan starts on.
use native.Mathlib.Decide.{ℕ_discrete}
use mathlib.Core.Path.{subst, sym}
use go_time_recording.Base.{
  ℕ, zero, suc, ◌≤◌, ◌<◌, ltb→lt, ◌≡◌, ◌≢◌, refl, ap, ◌∙◌, arith, Option, none, some, List, [], ◌∷◌,
  ltb, All, Bool-cases, inl, inr,
}
use go_time_recording.Base.Sort.{IsSorted}
use go_time_recording.Base.Distinct.{IsDistinct}
use go_time_recording.Base.Keyed.{find, IsKeyed}
use go_time_recording.Base.Keyed.Own.{own-find, own-IsSorted, own-IsDistinct, own-owner}
use go_time_recording.Calendar.{Day}
use go_time_recording.Schedule.{WeekHours, WorkSchedule, on, target_on, user_of, from_of, for_user}

abbrev pub Starts : Type 0 → Type 0
Starts H = Day → Option (WorkSchedule H)

module _ {H : Type 0} where
  -- The plan that starts on a day, as the repository has it.
  abbrev pub start_of : ℕ → List (WorkSchedule H) → Starts H
  start_of user schedules day = find user_of from_of user day schedules

  abbrev hours_or : WeekHours H → Option (WorkSchedule H) → WeekHours H
  hours_or week none = week
  hours_or week (some s) = s.hours

  -- The week in force on a day: that of the last plan to start on it or before.
  unfoldable pub week_on : Day → Starts H → WeekHours H → WeekHours H
  week_on zero starts before = hours_or before (starts 0)
  week_on (suc day) starts before = hours_or (week_on day starts before) (starts (suc day))

  week_on-none :
      (day : Day) (starts : Starts H) (before : WeekHours H)
      → ((k : Day) → k ≤ day → starts k ≡ none)
      → week_on day starts before ≡ before
  unfolding week_on
  week_on-none zero starts before h = rw (h 0 (omega arith)) refl
  week_on-none (suc day) starts before h =
      rw (h (suc day) (omega arith)) (week_on-none day starts before (λ k le. h k (omega arith)))

  pub week_on_same :
      (day : Day) (starts other : Starts H) (before : WeekHours H)
      → ((k : Day) → starts k ≡ other k)
      → week_on day starts before ≡ week_on day other before
  unfolding week_on
  week_on_same zero starts other before h = ap (hours_or before) (h 0)
  week_on_same (suc day) starts other before h =
      rw (h (suc day))
        (ap (λ w. hours_or w (other (suc day))) (week_on_same day starts other before h))

  week_on-first :
      (day : Day) (s : WorkSchedule H) (starts later : Starts H) (before : WeekHours H)
      → s.valid_from ≤ day
      → starts s.valid_from ≡ some s
      → ((k : Day) → k ≢ s.valid_from → starts k ≡ later k)
      → ((k : Day) → k ≤ s.valid_from → later k ≡ none)
      → week_on day starts before ≡ week_on day later s.hours
  unfolding week_on
  week_on-first zero s starts later before le here there none_yet =
      let same : s.valid_from ≡ 0 = omega arith in
      rw (subst (λ k. starts k ≡ some s) same here) (rw (none_yet 0 (omega arith)) refl)
  week_on-first (suc day) s starts later before le here there none_yet =
      elim (ℕ_discrete s.valid_from (suc day)) [
        | yes same ↦ rw (subst (λ k. starts k ≡ some s) same here) (
            rw (none_yet (suc day) (omega arith))
              (sym (week_on-none day later s.hours (λ k le'. none_yet k (omega arith)))))
        | no other ↦ rw (there (suc day) (λ e. other (sym e))) (
            ap (λ w. hours_or w (later (suc day)))
              (week_on-first day s starts later before (omega arith) here there none_yet))
      ]

  All-lt :
      (k from : ℕ) (schedules : List (WorkSchedule H))
      → k < from
      → All (λ s. from ≤ s.valid_from) schedules
      → All (λ s. k < s.valid_from) schedules
  All-lt k from [] lt h = tt
  All-lt k from (s ∷ rest) lt h = (omega arith, All-lt k from rest lt h.1)

  All-strict :
      (k from : ℕ) (schedules : List (WorkSchedule H))
      → k ≤ from
      → All (λ s. from ≤ s.valid_from) schedules
      → All (λ s. from ≢ s.valid_from) schedules
      → All (λ s. k < s.valid_from) schedules
  All-strict k from [] le h n = tt
  All-strict k from (s ∷ rest) le h n = (ground (arith, n.0), All-strict k from rest le h.1 n.1)

  -- Nothing starts on a day before all that start.
  starts_later :
      (user k : ℕ) (schedules : List (WorkSchedule H))
      → All (λ s. k < s.valid_from) schedules
      → start_of user schedules k ≡ none
  starts_later user k [] h = refl
  starts_later user k (s ∷ rest) h = ground (arith, starts_later user k rest h.1)

  -- Of plans in order, the loop finds the week in force.
  target_on-week_on :
      (user : ℕ) (day : Day) (schedules : List (WorkSchedule H)) (week : WeekHours H)
      → IsSorted from_of schedules
      → IsDistinct from_of schedules
      → All (λ s. s.user_id ≡ user) schedules
      → target_on day schedules week ≡ on (week_on day (start_of user schedules) week) day
  unfolding target_on
  target_on-week_on user day [] week sorted distinct owned =
      ap (λ w. on w day) (sym (week_on-none day _ week (λ k le. refl)))
  target_on-week_on user day (s ∷ rest) week sorted distinct owned =
      elim (Bool-cases (ltb day s.valid_from)) [
        | inl later ↦ rw later (
            ap (λ w. on w day)
              (sym (
                week_on-none day _ week (λ k le. starts_later user k (s ∷ rest) (
                  omega (arith, ltb→lt),
                  All-lt k s.valid_from rest (omega (arith, ltb→lt)) sorted.0,
                )))))
        | inr begun ↦ rw begun (
            target_on-week_on user day rest s.hours sorted.1 distinct.1 owned.1
            ∙ ap (λ w. on w day)
                (sym (
                  week_on-first day s _ (start_of user rest) week (ground arith) (ground arith)
                    (λ k n. ground arith)
                    (λ k le.
                      starts_later user k rest
                        (All-strict k s.valid_from rest le sorted.0 distinct.0)))))
      ]

  -- What a day asks is the figure of the week in force on it, which is that of the plan found first
  -- when the days are walked back from it, or the week before all plans. The repository must hold at
  -- most one plan for a user and a day.
  pub target_on-for_user :
      (user : ℕ) (day : Day) (schedules : List (WorkSchedule H)) (before : WeekHours H)
      → IsKeyed user_of from_of schedules
      → target_on day (for_user user schedules) before
        ≡ on (week_on day (start_of user schedules) before) day
  unfolding for_user
  target_on-for_user user day schedules before keyed =
      target_on-week_on user day _ before (own-IsSorted user_of from_of user schedules)
        (own-IsDistinct user_of from_of user schedules keyed)
        (own-owner user_of from_of user schedules)
      ∙ ap (λ w. on w day)
          (week_on_same day _ _ before (λ k. own-find user_of from_of user k schedules keyed))
