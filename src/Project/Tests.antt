-- ===== src/Project/Tests.antt =====
-- A completed project and its owner.
use go_time_recording.Base.{ℕ, ◌≡◌, refl, true, none, some, ◌||◌, ◌==◌, str_eq, if◌then◌else◌}
use go_time_recording.Errors.{ok}
use go_time_recording.Store
use go_time_recording.Store.{Store}
use go_time_recording.Project.{
  Project, visible_to, require_visible, archive_project, completed, archived,
}
use go_time_recording.Project.Laws.{archive_project-ok}

abbrev bridge : Project
bridge = record { id = 1; name = "Bridge"; status = completed; owner_id = some 3 }

abbrev projects : Store Project
projects = record {
  items = λ n. if n == 1 then some bridge else none;
  next_id = 2;
  entity = "project";
}

abbrev old_bridge : Project
old_bridge = record bridge { status = archived }

abbrev projects_after : Store Project
projects_after = record projects { items = Store.write 1 (some old_bridge) projects.items }

archive_project-ok_example :
    (((3 == 0) || visible_to bridge 3) ≡ true)
    × (str_eq completed completed ≡ true)
    × (old_bridge ≡ record bridge { status = archived })
    × ((n : ℕ)
        → Store.get n projects_after ≡ (if n == 1 then ok old_bridge else Store.get n projects))
archive_project-ok_example =
    archive_project-ok 1 3 projects projects_after bridge old_bridge refl refl
      (unfold archive_project require_visible visible_to Store.get Store.update in refl)
