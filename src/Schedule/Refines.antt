-- ===== src/Schedule/Refines.antt =====
-- The repository of schedules against a finite map from a person and a day to a plan.
use go_time_recording.Base.{ℕ, ◌≡◌, ◌∙◌, refl, none, List, []}
use go_time_recording.Base.Sort.{IsSorted}
use go_time_recording.Base.Distinct.{IsDistinct}
use go_time_recording.Base.Keyed.{find}
use go_time_recording.Base.Keyed.Own.{own-find, own-IsSorted, own-IsDistinct}
use go_time_recording.Base.Keyed.Runs.{
  Change, Contents, run, answers, map_run, map_answers, run_refines,
}
use go_time_recording.Schedule.{WorkSchedule, user_of, from_of, for_user}

module _ {H : Type 0} where
  -- The changes that a run of `Save` and `Delete` makes to an empty repository.
  abbrev pub after : List (Change (WorkSchedule H)) → List (WorkSchedule H)
  after changes = run user_of from_of changes []

  abbrev pub nothing_planned : Contents (WorkSchedule H)
  nothing_planned user day = none

  -- Whatever is saved and deleted, the repository answers each deletion as a map from a person and a
  -- day to a plan would, and lists of each person just the plans that the map then holds, in the
  -- order of their days, each day once.
  pub changes_refine :
      (changes : List (Change (WorkSchedule H)))
      → (answers user_of from_of changes [] ≡ map_answers user_of from_of changes nothing_planned)
        × ((user day : ℕ)
            → (find user_of from_of user day (for_user user (after changes))
                ≡ map_run user_of from_of changes nothing_planned user day)
              × IsSorted from_of (for_user user (after changes))
              × IsDistinct from_of (for_user user (after changes)))
  unfolding for_user
  changes_refine changes =
      let ((keyed, stands), same) =
        run_refines user_of from_of changes [] nothing_planned (tt, λ user day. refl) in
      (
        same,
        λ user day. (
          own-find user_of from_of user day (after changes) keyed ∙ stands user day,
          own-IsSorted user_of from_of user (after changes),
          own-IsDistinct user_of from_of user (after changes) keyed,
        ),
      )
