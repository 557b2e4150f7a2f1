-- ===== src/Schedule/Tests.antt =====
-- A plan of five shorter days, made and taken back.
use go_time_recording.Base.Int.{◌+ℤ◌}
use go_time_recording.Store.{get}
use go_time_recording.Base.{ℕ, ◌*◌, ◌≡◌, refl, List, [], ◌∷◌}
use go_time_recording.Base.Sort.{IsSorted}
use go_time_recording.Base.Distinct.{IsDistinct}
use go_time_recording.Base.Keyed.{find, put}
use go_time_recording.Base.Keyed.Runs.{Change, saved, deleted, answers, map_run, map_answers}
use go_time_recording.Calendar.{midnight, on_the_calendar, calendar_day, weekday}
use go_time_recording.Errors.{ok}
use go_time_recording.Float.Decimal.{decimal}
use go_time_recording.Booking.Tests.{hour, office}
use go_time_recording.Schedule.{
  WeekHours, WorkSchedule, save, for_user, user_of, from_of, target_on, valid, on,
}
use go_time_recording.Schedule.Refines.{after, nothing_planned, changes_refine}
use go_time_recording.Schedule.Service.{plan}
use go_time_recording.Schedule.Service.Laws.{IsPlanned, plan-target}

abbrev short_week : WeekHours ℕ
short_week = record {
  mon = 6 * hour;
  tue = 6 * hour;
  wed = 6 * hour;
  thu = 6 * hour;
  fri = 4 * hour;
  sat = 0;
  sun = 0;
}

abbrev short_plan : WorkSchedule ℕ
short_plan = record { user_id = 1; valid_from = 738941; hours = short_week }

planned_short :
    plan decimal 1 (midnight 738941) short_week office.users [] ≡ ok (short_plan, short_plan ∷ [])
unfolding plan on_the_calendar valid get calendar_day save ◌+ℤ◌ put
planned_short = refl

plan-target_example :
    IsPlanned decimal 1 (midnight 738941) short_week office.users [] short_plan (short_plan ∷ [])
plan-target_example =
    plan-target decimal 1 (midnight 738941) short_week office.users [] short_plan (short_plan ∷ [])
      tt planned_short

-- The Friday of the week asks for four hours, and for eight in the week before.
targets :
    (target_on 738945 (short_plan ∷ []) (record short_week { fri = 8 * hour }) ≡ 4 * hour)
    × (target_on 738938 (short_plan ∷ []) (record short_week { fri = 8 * hour }) ≡ 8 * hour)
unfolding target_on on weekday
targets = (refl, refl)

abbrev changes : List (Change (WorkSchedule ℕ))
changes = saved short_plan ∷ deleted 1 738940 ∷ deleted 1 738941 ∷ []

changes_refine_example :
    (answers user_of from_of changes [] ≡ map_answers user_of from_of changes nothing_planned)
    × ((user day : ℕ)
        → (find user_of from_of user day (for_user user (after changes))
            ≡ map_run user_of from_of changes nothing_planned user day)
          × IsSorted from_of (for_user user (after changes))
          × IsDistinct from_of (for_user user (after changes)))
changes_refine_example = changes_refine changes
