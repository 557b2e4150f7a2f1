-- ===== src/Project.antt =====
-- Projects: internal/domain/model/project_model.go, internal/domain/service/visibility.go and
-- project_service.go. Of a project's fields those that decide who may see it and book on it.
pub mod Laws
mod Tests
use go_time_recording.Base.{
  ℕ, Bool, false, not, ◌||◌, Option, none, some, String, ◌==◌, str_eq, if◌then◌else◌,
}
use go_time_recording.Errors.{Error, Result, ok, err, ◌>>=◌, ◌>>◌, refuse_if}
use go_time_recording.Store
use go_time_recording.Store.{Store}

abbrev pub active : String
active = "active"

abbrev pub archived : String
archived = "archived"

abbrev pub completed : String
completed = "completed"

pub record Project : Type 0 where
  pub id : ℕ
  pub name : String
  pub status : String
  pub owner_id : Option ℕ

unfoldable pub visible_to : Project → ℕ → Bool
visible_to p user = elim p.owner_id [ none ↦ false | some owner ↦ owner == user ]

-- `RequireVisible`: a viewer of 0 sees everything.
unfoldable pub require_visible : Project → ℕ → Result (Unit {0})
require_visible p viewer =
    if viewer == 0 || visible_to p viewer then ok tt else err (Error.not_found "project" p.id)

unfoldable pub archive_project : ℕ → ℕ → Store Project → Result (Project × Store Project)
unfolding require_visible
archive_project id viewer projects = do
  p ← Store.get id projects
  require_visible p viewer
  refuse_if (not (str_eq p.status completed)) (Error.conflict "archiveNeedsCompleted")
  Store.update p.id (record p { status = archived }) projects
