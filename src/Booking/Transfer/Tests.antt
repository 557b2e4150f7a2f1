-- ===== src/Booking/Transfer/Tests.antt =====
-- The entry of eight hours moved to a project, the reports on it, and its week copied.
use go_time_recording.Base.Int.{◌-ℤ◌}
use go_time_recording.Timesheet.Filter.{matches_filter}
use go_time_recording.Base.{
  ℕ, ◌*◌, ◌≡◌, refl, arith, false, none, some, [], ◌∷◌, ◌==◌, if◌then◌else◌,
}
use go_time_recording.Calendar.{midnight, weekday}
use go_time_recording.Errors.{Result, ok, ◌>>=◌}
use go_time_recording.Float.Decimal.{decimal}
use go_time_recording.Float.Totals.{Totals, no_totals}
use go_time_recording.Project.{Project, active, require_visible, visible_to}
use go_time_recording.Store
use go_time_recording.Timesheet.{Timesheet, revision_of, has_project, says}
use go_time_recording.Timesheet.Repository.{corrected, save, get_by_id, update, keep_revision}
use go_time_recording.Booking.Checks.{Booking, start_of_day}
use go_time_recording.Booking.Tests.{hour, booked_office, eight_entry, nowhere, booking_code}
use go_time_recording.Booking.Transfer.{transfer_to_project}
use go_time_recording.Booking.Transfer.Laws.{IsTransferred, transfer_to_project-ok}
use go_time_recording.Booking.Report.{project_time_report, own_time_report, sum_by_user}
use go_time_recording.Booking.Report.Laws.{reports_agree}
use go_time_recording.Booking.CopyWeek.{
  WeekCopy, copy_week, copy_of, save_many, copy_all, copy_one, still_open, shift_day,
}
use go_time_recording.Booking.CopyWeek.Laws.{IsWeekCopied, copy_week-ok}

abbrev garden : Project
garden = record { id = 7; name = "Garden"; status = active; owner_id = some 1 }

abbrev garden_office : Booking ℕ
garden_office = record booked_office {
  projects = record booked_office.projects {
    items = λ n. if n == 7 then some garden else none;
    next_id = 8;
  };
}

abbrev garden_entry : Timesheet ℕ
garden_entry = corrected ◌==◌ 200 (record eight_entry { project_id = some 7 }) eight_entry

abbrev moved_office : Booking ℕ
moved_office = record garden_office {
  entries = record {
    store = record garden_office.entries.store {
      items = Store.write 1 (some garden_entry) garden_office.entries.store.items;
    };
    revisions = record (revision_of eight_entry 200) { id = 1; replaced_by = none } ∷ [];
    next_revision = 1;
  };
}

transferred : transfer_to_project ◌==◌ 200 1 7 1 garden_office ≡ ok (garden_entry, moved_office)
unfolding booking_code transfer_to_project get_by_id require_visible visible_to has_project update
    Store.update keep_revision says
transferred = refl

transfer_to_project-ok_example :
    IsTransferred 1 7 1 garden_office eight_entry garden_entry moved_office
unfolding booking_code go_time_recording.Timesheet.Repository.get_by_id
transfer_to_project-ok_example =
    transfer_to_project-ok ◌==◌ 200 1 7 1 garden_office moved_office eight_entry garden_entry refl
      refl transferred

abbrev garden_report : Totals decimal
garden_report = sum_by_user decimal (garden_entry ∷ []) (no_totals decimal)

abbrev garden_report_of_ada : Result (Totals decimal)
garden_report_of_ada =
    project_time_report decimal nowhere 7 (midnight 738941) (midnight 738947) 1 1 moved_office

reported : garden_report_of_ada ≡ ok garden_report
unfolding booking_code project_time_report go_time_recording.Project.require_visible
    go_time_recording.Project.visible_to matches_filter corrected
reported = refl

reports_agree_example :
    (own_time_report decimal nowhere
        (record { project_id = 7; unassigned = false })
        (midnight 738941)
        (midnight 738947)
        1
        moved_office
      ≡ (garden_report_of_ada >>= λ report. ok (report 1)))
    × ((garden_report_of_ada >>= λ report. ok (report 2))
        ≡ (garden_report_of_ada >>= λ report. ok 0))
reports_agree_example =
    reports_agree decimal nowhere 1 7 (midnight 738941) (midnight 738947) moved_office 2
      (λ e. absurd (omega arith)) (λ e. absurd (omega arith)) (λ e. absurd (omega arith))

abbrev one_copied : WeekCopy ℕ
one_copied = record { copied = 1; hours = 8 * hour; kept = 0; closed = 0 }

abbrev next_office : Booking ℕ
next_office = record booked_office {
  entries = save_many 300 (copy_of 1 738951 eight_entry ∷ []) booked_office.entries;
}

copied :
    copy_week decimal nowhere (10 * hour) 300 1 (midnight 738941) (midnight 738948) booked_office
    ≡ ok (one_copied, next_office)
unfolding booking_code copy_week weekday go_time_recording.Timesheet.Filter.matches_filter copy_all
    copy_one still_open shift_day ◌-ℤ◌ start_of_day
copied = refl

copy_week-ok_example :
    IsWeekCopied decimal nowhere
      (10 * hour)
      300
      1
      (midnight 738941)
      (midnight 738948)
      booked_office
      one_copied
      next_office
copy_week-ok_example =
    copy_week-ok decimal nowhere (10 * hour) 300 1 (midnight 738941) (midnight 738948) booked_office
      one_copied next_office copied
