-- ===== src/Timesheet/Repository.antt =====
-- The in-memory repository of entries and their history:
-- internal/infrastructure/persistence/memory/timesheet.go. The clock is an argument, in seconds.
pub mod Laws
use go_time_recording.Base.{
  ℕ, ◌+◌, ◌%◌, Bool, true, false, not, ◌&&◌, ◌||◌, Option, none, some, List, [], ◌∷◌, ◌++◌, String,
  ltb, ◌==◌, if◌then◌else◌, keep, count,
}
use go_time_recording.Base.Order.{sort_less}
use go_time_recording.Errors.{Error, Result, ok, err, ◌>>=◌}
use go_time_recording.Store
use go_time_recording.Store.{Store, uint_mod}
use go_time_recording.Timesheet.{Timesheet, TimesheetRevision, says, revision_of}
use go_time_recording.Timesheet.Filter.{TimesheetFilter, over_whole_days, matches_filter, page}

pub record TimesheetRepository (H : Type 0) : Type 0 where
  pub store : Store (Timesheet H)
  pub revisions : List (TimesheetRevision H)
  pub next_revision : ℕ

module _ {H : Type 0} where
  abbrev pub stamp : ℕ → Timesheet H → ℕ → Timesheet H
  stamp now t id = record t { id = id; created_at = now; updated_at = now }

  unfoldable pub save :
      ℕ → Timesheet H → TimesheetRepository H → Timesheet H × TimesheetRepository H
  save now t r =
      let (stored, store) = Store.add t (stamp now) r.store in (stored, record r { store = store })

  unfoldable pub get_by_id : ℕ → TimesheetRepository H → Result (Timesheet H)
  get_by_id id r = Store.get id r.store

  -- Newest day first, and the later booked first on one day.
  abbrev pub newer : Timesheet H → Timesheet H → Bool
  newer a b =
      if not (a.date.seconds == b.date.seconds)
      then ltb b.date.seconds a.date.seconds
      else ltb b.id a.id

  -- What a correction of `before` writes, and the history it leaves.
  unfoldable pub corrected : (H → H → Bool) → ℕ → Timesheet H → Timesheet H → Timesheet H
  corrected eq now t before = record t {
    updated_at = now;
    created_at = before.created_at;
    recorded_by = before.recorded_by;
    updated_by = if says eq before t then before.updated_by else t.updated_by;
  }

  unfoldable pub keep_revision :
      (H → H → Bool) → ℕ → Timesheet H → Timesheet H → TimesheetRepository H → TimesheetRepository H
  keep_revision eq now t before r =
      let id' = (r.next_revision + 1) % uint_mod in
      let kept : TimesheetRevision H = record (revision_of before now) {
        id = id';
        replaced_by = t.updated_by;
      } in
      if says eq before t
      then r
      else record r { next_revision = id'; revisions = r.revisions ++ kept ∷ [] }

  unfoldable pub update :
      (H → H → Bool)
      → ℕ
      → Timesheet H
      → TimesheetRepository H
      → Result (Timesheet H × TimesheetRepository H)
  update eq now t r = elim (r.store.items t.id) [
    | none ↦ err (Error.not_found r.store.entity t.id)
    | some before ↦ do
      (updated, store) ← Store.update t.id (corrected eq now t before) r.store
      ok (updated, keep_revision eq now t before (record r { store = store }))
  ]

  abbrev pub is_revision_of : ℕ → TimesheetRevision H → Bool
  is_revision_of id v = v.timesheet_id == id

  unfoldable pub delete : ℕ → TimesheetRepository H → Result (TimesheetRepository H)
  delete id r = do
    store ← Store.delete id r.store
    ok (record r { store = store; revisions = keep (λ v. not (is_revision_of id v)) r.revisions })

  -- The most recently replaced first, and the later kept first of one second.
  abbrev pub replaced_later : TimesheetRevision H → TimesheetRevision H → Bool
  replaced_later a b =
      if not (a.replaced_at == b.replaced_at)
      then ltb b.replaced_at a.replaced_at
      else ltb b.id a.id

  unfoldable pub revisions_of : ℕ → TimesheetRepository H → List (TimesheetRevision H)
  revisions_of id r = sort_less replaced_later (keep (is_revision_of id) r.revisions)

  module _ (found : String → String → Bool) where
    unfoldable pub get_by_filter :
        TimesheetFilter → TimesheetRepository H → Option (List (Timesheet H))
    get_by_filter f r =
        let whole = over_whole_days f in
        page (sort_less newer (keep (λ t. matches_filter found t whole) (Store.all r.store)))
          f.limit f.offset

    unfoldable pub count_by_filter : TimesheetFilter → TimesheetRepository H → ℕ
    count_by_filter f r =
        let whole = over_whole_days f in
        count (λ t. matches_filter found t whole) (Store.all r.store)
