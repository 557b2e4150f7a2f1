-- ===== src/Timesheet/Tests.antt =====
-- A concrete repository for the theorems on entries.
use go_time_recording.Base.{
  ℕ, ◌+◌, ◌%◌, ◌≡◌, refl, arith, Bool, true, false, not, ◌&&◌, ◌||◌, none, some, List, [], ◌∷◌,
  String, ◌==◌, str_eq, if◌then◌else◌, length, take, drop,
}
use go_time_recording.Calendar.{midnight}
use go_time_recording.Errors.{ok}
use go_time_recording.Store.{uint_mod}
use go_time_recording.Timesheet.{Timesheet, has_project, says, revision_of}
use go_time_recording.Timesheet.Filter.{TimesheetFilter, over_whole_days, matches_filter, page}
use go_time_recording.Timesheet.Filter.Laws.{
  is_on, starts_by, ends_from, says_text, matches_filter-over_whole_days, page-none,
}
use go_time_recording.Timesheet.Repository.{
  TimesheetRepository, update, get_by_id, get_by_filter, count_by_filter,
}
use go_time_recording.Timesheet.Repository.Laws.{update-history, get_by_filter-count}

abbrev entry : ℕ → Timesheet ℕ
entry hours = record {
  id = 1;
  user_id = 1;
  project_id = none;
  date = midnight 738944;
  duration_hours = hours;
  description = none;
  created_at = 100;
  updated_at = 100;
  recorded_by = none;
  updated_by = none;
}

abbrev one_entry : TimesheetRepository ℕ
one_entry = record {
  store = record {
    items = λ n. if n == 1 then some (entry 8) else none;
    next_id = 2;
    entity = "timesheet";
  };
  revisions = [];
  next_revision = 0;
}

abbrev february : TimesheetFilter
february = record {
  user_id = 1;
  project_id = 0;
  start_date = some (midnight 738916);
  end_date = some (midnight 738944);
  without_project = true;
  search = "";
  limit = 10;
  offset = 0;
}

abbrev nowhere : String → String → Bool
nowhere text part = false

matches_filter-over_whole_days_example :
    matches_filter nowhere (entry 8) (over_whole_days february) ≡ (
      ((february.user_id == 0) || ((entry 8).user_id == february.user_id))
      && (((february.project_id == 0) || is_on (entry 8).project_id february.project_id)
          && ((not february.without_project || not (has_project (entry 8)))
              && (starts_by february.start_date 738944
                  && (ends_from february.end_date 738944
                      && (str_eq february.search ""
                          || says_text nowhere (entry 8).description february.search))))))
matches_filter-over_whole_days_example =
    matches_filter-over_whole_days nowhere (entry 8) february 738944 refl

abbrev three : List ℕ
three = 4 ∷ 5 ∷ 6 ∷ []

page-none_example : page three 18446744073709551615 1 ≡ none
page-none_example =
    page-none three 18446744073709551615 1 (omega arith) (omega arith) (omega arith) (omega arith)

update-history_example :
    (after : TimesheetRepository ℕ) × (kept : Timesheet ℕ) × (update ◌==◌ 200 (entry 7) one_entry
      ≡ ok (kept, after))
    × (get_by_id 1 after ≡ ok kept)
    × (kept.created_at ≡ 100)
    × (kept.recorded_by ≡ none)
    × (kept.updated_at ≡ 200)
    × (kept.duration_hours ≡ 7)
    × (kept.updated_by ≡ (if says ◌==◌ (entry 8) (entry 7) then none else none))
    × (after.revisions ≡ (
        if says ◌==◌ (entry 8) (entry 7)
        then []
        else record (revision_of (entry 8) 200) { id = (0 + 1) % uint_mod; replaced_by = none }
          ∷ []))
update-history_example = update-history ◌==◌ 200 (entry 7) (entry 8) one_entry refl

get_by_filter-count_example :
    (entries : List (Timesheet ℕ)) × (length entries ≡ count_by_filter nowhere february one_entry)
    × (get_by_filter nowhere february one_entry
        ≡ some (if 10 == 0 then entries else take 10 (drop 0 entries)))
get_by_filter-count_example = get_by_filter-count nowhere february one_entry (omega arith)
