-- ===== src/Booking/Transfer/Laws.antt =====
-- What a transfer moves, and what it leaves.
use mathlib.Core.Path.{subst, sym}
use go_time_recording.Base.{
  ℕ, ◌≡◌, ◌≢◌, ◌∙◌, ap, refl, arith, Bool, true, false, not, ◌&&◌, some, ◌==◌, str_eq,
  if◌then◌else◌,
}
use go_time_recording.Errors.{Error, ok, bind-ok, check-ok, refuse_if-ok, ok_injective}
use go_time_recording.Store
use go_time_recording.Store.Members.{get-some}
use go_time_recording.Project.{Project, require_visible, visible_to, active}
use go_time_recording.Timesheet.{Timesheet, has_project}
use go_time_recording.Timesheet.Repository
use go_time_recording.Timesheet.Repository.{get_by_id, corrected, TimesheetRepository}
use go_time_recording.Timesheet.Repository.Laws.{update-ok, update-others}
use go_time_recording.Booking.Checks.{Booking, other_than}
use go_time_recording.Booking.Transfer.{is_project, transfer_to_project}

seen_by_owner :
    (p : Project) (actor owner : ℕ)
    → actor ≢ 0
    → owner ≢ 0
    → require_visible p (if not (actor == 0) then owner else actor) ≡ ok tt
    → visible_to p owner ≡ true
unfolding require_visible
seen_by_owner p actor owner actor_there owner_there visible = ground arith

module _ {H : Type 0} where
  -- An entry that was moved from `before`.
  pub record IsTransferred (id new_project actor : ℕ) (b : Booking H) (before t : Timesheet H)
      (after : Booking H) : Type 0 where
    pub p : Project
    pub project_there : Store.get new_project b.projects ≡ ok p
    pub seen : actor ≢ 0 → before.user_id ≢ 0 → visible_to p before.user_id ≡ true
    pub takes_bookings : str_eq p.status active ≡ true
    pub on_project : t.project_id ≡ some p.id
    pub elsewhere : (has_project before && is_project before.project_id p.id) ≡ false
    pub same_owner : t.user_id ≡ before.user_id
    pub same_day : t.date ≡ before.date
    pub same_hours : t.duration_hours ≡ before.duration_hours
    pub same_text : t.description ≡ before.description
    pub same_author : t.recorded_by ≡ before.recorded_by
    pub same_id : t.id ≡ id
    pub stored : get_by_id id after.entries ≡ ok t
    pub others_kept : (n : ℕ) → n ≢ id → get_by_id n after.entries ≡ get_by_id n b.entries
    pub projects_kept : after.projects ≡ b.projects
    pub users_kept : after.users ≡ b.users

  -- An entry that is transferred was there and on another project, or on none; the project it goes
  -- to is there, takes bookings and, unless authentication is off, is its owner's to see. Under its id
  -- it reads as on that project afterwards, and keeps its owner, its day, its hours, its description
  -- and who recorded it; every other entry reads as before. The entry must be stored under its own id.
  pub transfer_to_project-ok :
      (eq : H → H → Bool) (now id new_project actor : ℕ) (b after : Booking H)
      (before t : Timesheet H)
      → get_by_id id b.entries ≡ ok before
      → before.id ≡ id
      → transfer_to_project eq now id new_project actor b ≡ ok (t, after)
      → IsTransferred id new_project actor b before t after
  unfolding transfer_to_project get_by_id corrected
  transfer_to_project-ok eq now id new_project actor b after before t got own done =
      let (t0, there, rest) = bind-ok (Store.get id b.entries.store) _ done in
      let is : t0 ≡ before = ok_injective (sym there ∙ got) in
      let (p, project_there, rest1) = bind-ok (Store.get new_project b.projects) _ rest in
      let (visible, rest2) =
        check-ok (require_visible p (if not (actor == 0) then t0.user_id else actor)) _ rest1 in
      let (elsewhere, rest3) =
        refuse_if-ok (has_project t0 && is_project t0.project_id p.id)
          (Error.conflict "entryAlreadyOnProject") _ rest2 in
      let (open_now, rest4) =
        refuse_if-ok (not (str_eq p.status active)) (Error.conflict "projectClosedForBooking") _
          rest3 in
      let moved : Timesheet H = record t0 {
        project_id = some p.id;
        updated_by = other_than actor t0.user_id;
      } in
      let ((updated, entries), written, end) =
        bind-ok (Repository.update eq now moved b.entries) _ rest4 in
      let own_id : t0.id ≡ id = ap (λ x. x.id) is ∙ own in
      let before_stored =
        subst (λ n. b.entries.store.items n ≡ some t0) (sym own_id)
          (get-some id b.entries.store t0 there) in
      let (is_corrected, stored) =
        update-ok eq now moved t0 b.entries updated entries before_stored written in
      let others = update-others eq now moved t0 b.entries updated entries before_stored written in
      let same = ok_injective end in
      subst (λ x. IsTransferred id new_project actor b x t after) is
        (subst (λ r. IsTransferred id new_project actor b t0 r.0 r.1) same
          (record {
            p = p;
            project_there = project_there;
            seen = λ actor_there owner_there.
                seen_by_owner p actor t0.user_id actor_there owner_there visible;
            takes_bookings = ground arith;
            on_project = ap (λ x. x.project_id) is_corrected;
            elsewhere = elsewhere;
            same_owner = ap (λ x. x.user_id) is_corrected;
            same_day = ap (λ x. x.date) is_corrected;
            same_hours = ap (λ x. x.duration_hours) is_corrected;
            same_text = ap (λ x. x.description) is_corrected;
            same_author = ap (λ x. x.recorded_by) is_corrected;
            same_id = ap (λ x. x.id) is_corrected ∙ own_id;
            stored = subst (λ n. get_by_id n entries ≡ ok updated) own_id stored;
            others_kept = λ n other. others n (λ e. other (e ∙ own_id));
            projects_kept = refl;
            users_kept = refl;
          }))
