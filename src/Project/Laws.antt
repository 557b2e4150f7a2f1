-- ===== src/Project/Laws.antt =====
-- When a project is archived, and what that leaves.
use mathlib.Core.Path.{subst}
use go_time_recording.Base.{ℕ, ◌≡◌, arith, true, not, ◌||◌, some, ◌==◌, str_eq, if◌then◌else◌}
use go_time_recording.Errors.{Error, ok, check-ok, refuse_if-ok}
use go_time_recording.Store
use go_time_recording.Store.{Store}
use go_time_recording.Store.Laws
use go_time_recording.Project.{
  Project, visible_to, require_visible, archive_project, completed, archived,
}

require_visible-ok :
    (p : Project) (viewer : ℕ)
    → require_visible p viewer ≡ ok tt
    → ((viewer == 0) || visible_to p viewer) ≡ true
unfolding require_visible
require_visible-ok p viewer h = ground arith

-- Archiving succeeds only for a project that is there, that the viewer sees, a viewer of 0 seeing
-- every project, and that is completed. The project then reads as archived, and every other project
-- as before.
pub archive_project-ok :
    (id viewer : ℕ) (s s' : Store Project) (before p : Project)
    → s.items id ≡ some before
    → before.id ≡ id
    → archive_project id viewer s ≡ ok (p, s')
    → (((viewer == 0) || visible_to before viewer) ≡ true)
      × (str_eq before.status completed ≡ true)
      × (p ≡ record before { status = archived })
      × ((n : ℕ) → Store.get n s' ≡ (if n == id then ok p else Store.get n s))
unfolding archive_project
archive_project-ok id viewer s s' before p there own h =
    let got : Store.get id s ≡ ok before = unfold Store.get in rw (there, Store.found) in
    let h1 = rw got at h in
    let (seen, h2) = check-ok (require_visible before viewer) _ h1 in
    let (done, h3) =
      refuse_if-ok (not (str_eq before.status completed)) (Error.conflict "archiveNeedsCompleted") _
        h2 in
    let (archived_now, reads) =
      Laws.update-ok before.id (record before { status = archived }) s p s' h3 in
    (
      require_visible-ok before viewer seen,
      ground (arith, done),
      archived_now,
      λ n. rw archived_now (
          subst
            (λ k.
              Store.get n s'
              ≡ (if n == k then ok (record before { status = archived }) else Store.get n s))
            own (reads n)),
    )
