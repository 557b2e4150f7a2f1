-- ===== src/Booking/Correct/Laws.antt =====
-- What a correction and a deletion leave.
use mathlib.Core.Path.{subst}
use go_time_recording.Base.{
  ℕ, ◌≡◌, ◌≢◌, ◌⊎◌, ◌∙◌, ap, sym, refl, arith, Bool, false, not, ◌&&◌, ◌||◌, String, List, [], ◌∷◌,
  ◌==◌, keep, Bool-cases, Option-cases, inl, inr, none, some,
}
use go_time_recording.Base.Order.{sort_less}
use go_time_recording.Errors.{Error, ok, err, bind-ok, check-ok, refuse_if-ok, ok_injective}
use go_time_recording.Float.{Float64}
use go_time_recording.Store
use go_time_recording.Timesheet.{Timesheet, TimesheetRevision, has_project}
use go_time_recording.Timesheet.Repository
use go_time_recording.Timesheet.Repository.{
  TimesheetRepository, corrected, get_by_id, revisions_of, is_revision_of, replaced_later,
}
use go_time_recording.Timesheet.Repository.Laws.{update-ok}
use go_time_recording.Booking.Checks.{Booking, validate_timesheet, check_daily_budget}
use go_time_recording.Booking.Checks.Laws.{
  IsOpenFor, IsBookable, IsWithinLimit, require_user_and_project-ok, validate_timesheet-ok,
  check_daily_budget-ok,
}
use go_time_recording.Booking.Correct.{
  UpdateTimesheetCommand, reassigned, moved_owner, moved_project, project_or_zero, require_owner,
  require_move, corrected_entry, update_timesheet, delete_timesheet,
}

module _ {H : Type 0} where
  keep-none :
      (id : ℕ) (vs : List (TimesheetRevision H))
      → keep (is_revision_of id) (keep (λ v. not (is_revision_of id v)) vs) ≡ []
  keep-none id [] = refl
  keep-none id (v ∷ vs) = ground (arith, keep-none id vs)

  keep_other :
      (id n : ℕ) (vs : List (TimesheetRevision H))
      → n ≢ id
      → keep (is_revision_of n) (keep (λ v. not (is_revision_of id v)) vs)
        ≡ keep (is_revision_of n) vs
  keep_other id n [] other = refl
  keep_other id n (v ∷ vs) other = ground (arith, keep_other id n vs other)

  delete-ok :
      (id : ℕ) (r r' : TimesheetRepository H)
      → Repository.delete id r ≡ ok r'
      → r' ≡ record r {
        store = record r.store { items = Store.write id none r.store.items };
        revisions = keep (λ v. not (is_revision_of id v)) r.revisions;
      }
  unfolding Repository.delete Store.delete
  delete-ok id r r' h = elim (Option-cases (r.store.items id)) [
    | inl missing ↦ ground (arith, missing)
    | inr (t, there) ↦ ground (arith, there)
  ]

  -- A deletion that succeeds takes the entry away with its history: its id reads as nothing and has
  -- no revisions, and every other entry keeps what it says and its history.
  pub delete_timesheet-ok :
      (id : ℕ) (b b' : Booking H)
      → delete_timesheet id b ≡ ok b'
      → (id ≢ 0)
        × (get_by_id id b'.entries ≡ err (Error.not_found b.entries.store.entity id))
        × (revisions_of id b'.entries ≡ [])
        × ((n : ℕ)
            → n ≢ id
            → (get_by_id n b'.entries ≡ get_by_id n b.entries)
              × (revisions_of n b'.entries ≡ revisions_of n b.entries))
        × (b'.users ≡ b.users)
        × (b'.projects ≡ b.projects)
  unfolding delete_timesheet get_by_id Store.get revisions_of
  delete_timesheet-ok id b b' h =
      let (named, h1) = refuse_if-ok (id == 0) (Error.invalid_fields ("id" ∷ [])) _ h in
      let (t, got, h2) = bind-ok (get_by_id id b.entries) _ h1 in
      let (entries, deleted, h3) = bind-ok (Repository.delete id b.entries) _ h2 in
      let after = sym (ok_injective h3) in
      let left = delete-ok id b.entries entries deleted in
      (
        ground (arith, named),
        rw (after, left) (ground arith),
        rw (after, left) (ap (sort_less replaced_later) (keep-none id b.entries.revisions)),
        λ n other. (
          rw (after, left) (ground (arith, other)),
          rw (after, left)
              (ap (sort_less replaced_later) (keep_other id n b.entries.revisions other)),
        ),
        rw after refl,
        rw after refl,
      )

module _ (F : Float64) (found : String → String → Bool) (daily_cap : F.Number) where
  open F use {Number, eq}

  -- What an accepted correction has met and leaves: the entry as corrected is bookable and within the
  -- daily limit, itself not counted twice; a project it is moved onto, or stays on while it changes
  -- hands, is one that its owner sees and that is active; who recorded it, and when, stays.
  pub record IsCorrected (now : ℕ) (cmd : UpdateTimesheetCommand Number) (b : Booking Number)
      (before t : Timesheet Number) (b' : Booking Number) : Type 0 where
    pub within_limit :
        IsWithinLimit F found daily_cap
          (corrected_entry cmd before).user_id
          (corrected_entry cmd before).date
          (corrected_entry cmd before).duration_hours
          before.id
          b
    pub open_project :
        (((moved_owner cmd.user_id before.user_id || moved_project cmd.project_id before.project_id)
            && has_project (reassigned cmd before))
          ≡ false)
        ⊎ ((project_or_zero (reassigned cmd before).project_id ≡ 0)
            ⊎ IsOpenFor
                (reassigned cmd before).user_id
                (project_or_zero (reassigned cmd before).project_id)
                b)
    pub bookable :
        IsBookable F
          (corrected_entry cmd before).date
          (corrected_entry cmd before).duration_hours
          (corrected_entry cmd before).description
    pub is_entry : t ≡ corrected eq now (corrected_entry cmd before) before
    pub reads_back : get_by_id cmd.id b'.entries ≡ ok t
    pub users_kept : b'.users ≡ b.users
    pub projects_kept : b'.projects ≡ b.projects

  require_move-ok :
      (cmd : UpdateTimesheetCommand Number) (before t : Timesheet Number) (b : Booking Number)
      → require_move cmd before t b ≡ ok tt
      → (((moved_owner cmd.user_id before.user_id || moved_project cmd.project_id before.project_id)
            && has_project t)
          ≡ false)
        ⊎ ((project_or_zero t.project_id ≡ 0)
            ⊎ IsOpenFor t.user_id (project_or_zero t.project_id) b)
  unfolding require_move
  require_move-ok cmd before t b h =
      elim (Bool-cases (
        (moved_owner cmd.user_id before.user_id || moved_project cmd.project_id before.project_id)
        && has_project t)) [
          | inr stays ↦ inl stays
          | inl moved ↦ inr (
              require_user_and_project-ok t.user_id (project_or_zero t.project_id) b
                (rw moved at h))
        ]

  -- A correction of an entry that is stored under its id, and that is accepted, is one that
  -- `IsCorrected` describes.
  pub update_timesheet-ok :
      (now : ℕ) (cmd : UpdateTimesheetCommand Number) (b : Booking Number)
      (before t : Timesheet Number) (b' : Booking Number)
      → b.entries.store.items cmd.id ≡ some before
      → before.id ≡ cmd.id
      → update_timesheet F found daily_cap now cmd b ≡ ok (t, b')
      → IsCorrected now cmd b before t b'
  unfolding update_timesheet
  update_timesheet-ok now cmd b before t b' there own h =
      let c = corrected_entry cmd before in
      let (named, h1) = refuse_if-ok (cmd.id == 0) (Error.invalid_fields ("id" ∷ [])) _ h in
      let got : get_by_id cmd.id b.entries ≡ ok before =
        unfold get_by_id Store.get in rw (there, Store.get) in
      let h2 = rw got at h1 in
      let (owned, h3) = check-ok (require_owner cmd.user_id b) _ h2 in
      let (moved, h4) = check-ok (require_move cmd before (reassigned cmd before) b) _ h3 in
      let (valid, h5) =
        check-ok (validate_timesheet F c.date c.duration_hours c.description) _ h4 in
      let (in_budget, h6) =
        check-ok (check_daily_budget F found daily_cap c.user_id c.date c.duration_hours c.id b) _
          h5 in
      let ((kept, entries), updated, h7) = bind-ok (Repository.update eq now c b.entries) _ h6 in
      let there' : b.entries.store.items before.id ≡ some before =
        subst (λ n. b.entries.store.items n ≡ some before) (sym own) there in
      let (is_entry, reads_back) =
        update-ok eq now c before b.entries kept entries there' updated in
      let same = ok_injective h7 in
      record {
        within_limit =
            check_daily_budget-ok F found daily_cap c.user_id c.date c.duration_hours before.id b
              in_budget;
        open_project = require_move-ok cmd before (reassigned cmd before) b moved;
        bookable = validate_timesheet-ok F c.date c.duration_hours c.description valid;
        is_entry = sym (ap (λ x. x.0) same) ∙ is_entry;
        reads_back =
            subst (λ x. get_by_id cmd.id x.1.entries ≡ ok x.0) same
              (subst (λ n. get_by_id n entries ≡ ok kept) own reads_back);
        users_kept = ap (λ x. x.1.users) (sym same);
        projects_kept = ap (λ x. x.1.projects) (sym same);
      }
