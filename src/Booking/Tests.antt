-- ===== src/Booking/Tests.antt =====
-- A booking of eight hours.
use go_time_recording.Base.{
  ℕ, ◌*◌, ◌≡◌, ◌≢◌, refl, Bool, false, none, some, [], ◌∷◌, String, ◌==◌, if◌then◌else◌,
}
use go_time_recording.Calendar.{midnight, on_the_calendar, calendar_day}
use go_time_recording.Errors.{Error, ok, err}
use go_time_recording.Base.Int.{◌+ℤ◌, ◌-ℤ◌}
use go_time_recording.Timesheet.Filter.{page, over_whole_days, matches_filter}
use go_time_recording.Float.Decimal.{decimal}
use go_time_recording.User.{User}
use go_time_recording.Store
use go_time_recording.Timesheet.{Timesheet, revision_of, says}
use go_time_recording.Timesheet.Repository.{
  get_by_filter, get_by_id, save, corrected, revisions_of, keep_revision,
}
use go_time_recording.Booking.Checks.{
  Booking, daily_limit_for, total_without, validate_timesheet, require_user_and_project,
  check_daily_budget, within_limit, start_of_day,
}
use go_time_recording.Booking.Create.{CreateTimesheetCommand, entry_of, create_timesheet}
use go_time_recording.Booking.Correct.{
  UpdateTimesheetCommand, corrected_entry, require_move, update_timesheet, delete_timesheet,
}
use go_time_recording.Booking.Correct.Laws.{IsCorrected, update_timesheet-ok, delete_timesheet-ok}
use go_time_recording.Timesheet.Repository
use go_time_recording.Booking.Create.Accepts.{create_timesheet-accepts}
use go_time_recording.Base.{inl, inr}
use go_time_recording.Booking.Create.Laws.{IsAccepted, create_timesheet-ok}

abbrev pub hour : ℕ
hour = 1000000000

abbrev pub ada : User ℕ
ada = record {
  id = 1;
  name = "Ada";
  role_id = 2;
  is_system = false;
  daily_target_hours = 8 * hour;
  max_daily_hours = 0;
  holiday_place = "";
  every_day_counts_from = none;
  balance_upper_limit = none;
  balance_lower_limit = none;
  skip_unbooked_reminder = false;
  timer_alert_hours = none;
}

abbrev pub office : Booking ℕ
office = record {
  entries = record {
    store = record { items = λ n. none; next_id = 1; entity = "timesheet" };
    revisions = [];
    next_revision = 0;
  };
  users = record { items = λ n. if n == 1 then some ada else none; next_id = 2; entity = "user" };
  projects = record { items = λ n. none; next_id = 1; entity = "project" };
}

abbrev eight_hours : CreateTimesheetCommand ℕ
eight_hours = record {
  user_id = 1;
  project_id = 0;
  date = midnight 738944;
  duration_hours = 8 * hour;
  description = none;
  recorded_by = 0;
}

abbrev pub nowhere : String → String → Bool
nowhere text part = false

-- What the office has once the hours are booked.
abbrev pub eight_entry : Timesheet ℕ
eight_entry = record (entry_of eight_hours) { id = 1; created_at = 100; updated_at = 100 }

abbrev pub booked_office : Booking ℕ
booked_office = record office {
  entries = record office.entries {
    store = record office.entries.store {
      items = Store.write 1 (some eight_entry) (λ n. none);
      next_id = 2;
    };
  };
}

-- All that a booking computes with.
unfoldable pub booking_code : Unit {0}
unfolding create_timesheet validate_timesheet require_user_and_project check_daily_budget
    within_limit daily_limit_for total_without save Store.add Store.get Store.all Store.collect
    get_by_filter page over_whole_days on_the_calendar calendar_day ◌+ℤ◌
booking_code = tt

eight_booked :
    create_timesheet decimal nowhere (10 * hour) 100 eight_hours office
    ≡ ok (eight_entry, booked_office)
unfolding booking_code
eight_booked = refl

create_timesheet-ok_example :
    IsAccepted decimal nowhere (10 * hour) 100 eight_hours office eight_entry booked_office
create_timesheet-ok_example =
    create_timesheet-ok decimal nowhere (10 * hour) 100 eight_hours office eight_entry booked_office
      eight_booked

-- An hour less.
abbrev shorten : UpdateTimesheetCommand ℕ
shorten = record {
  id = 1;
  user_id = none;
  project_id = none;
  date = none;
  duration_hours = some (7 * hour);
  description = none;
  updated_by = 0;
}

abbrev seven_entry : Timesheet ℕ
seven_entry = corrected ◌==◌ 200 (corrected_entry shorten eight_entry) eight_entry

abbrev shortened_office : Booking ℕ
shortened_office = record booked_office {
  entries = record {
    store = record booked_office.entries.store {
      items = Store.write 1 (some seven_entry) (Store.write 1 (some eight_entry) (λ n. none));
    };
    revisions = record (revision_of eight_entry 200) { id = 1; replaced_by = none } ∷ [];
    next_revision = 1;
  };
}

shortened :
    update_timesheet decimal nowhere (10 * hour) 200 shorten booked_office
    ≡ ok (seven_entry, shortened_office)
unfolding booking_code update_timesheet require_move get_by_id matches_filter start_of_day ◌-ℤ◌
    Repository.update Store.update keep_revision says
shortened = refl

update_timesheet-ok_example :
    IsCorrected decimal nowhere
      (10 * hour)
      200
      shorten
      booked_office
      eight_entry
      seven_entry
      shortened_office
update_timesheet-ok_example =
    update_timesheet-ok decimal nowhere (10 * hour) 200 shorten booked_office eight_entry
      seven_entry shortened_office refl refl shortened

abbrev emptied_office : Booking ℕ
emptied_office = record shortened_office {
  entries = record {
    store = record shortened_office.entries.store {
      items = Store.write 1 none shortened_office.entries.store.items;
    };
    revisions = [];
    next_revision = 1;
  };
}

emptied : delete_timesheet 1 shortened_office ≡ ok emptied_office
unfolding booking_code delete_timesheet get_by_id Repository.delete Store.delete revision_of
emptied = refl

delete_timesheet-ok_example :
    (eight_entry.id ≢ 0)
    × (get_by_id 1 emptied_office.entries ≡ err (Error.not_found "timesheet" 1))
    × (revisions_of 1 emptied_office.entries ≡ [])
    × ((n : ℕ)
        → n ≢ 1
        → (get_by_id n emptied_office.entries ≡ get_by_id n shortened_office.entries)
          × (revisions_of n emptied_office.entries ≡ revisions_of n shortened_office.entries))
    × (emptied_office.users ≡ shortened_office.users)
    × (emptied_office.projects ≡ shortened_office.projects)
delete_timesheet-ok_example = delete_timesheet-ok 1 shortened_office emptied_office emptied

create_timesheet-accepts_example :
    create_timesheet decimal nowhere (10 * hour) 100 eight_hours office
    ≡ ok (
      (save 100 (entry_of eight_hours) office.entries).0,
      record office { entries = (save 100 (entry_of eight_hours) office.entries).1 },
    )
unfolding booking_code matches_filter start_of_day ◌-ℤ◌
create_timesheet-accepts_example =
    create_timesheet-accepts decimal nowhere (10 * hour) 100 eight_hours office
      (record { on_calendar = refl; least = refl; most = refl; described = refl }) (inl refl)
      (ada, refl, inr ([], refl, refl))
