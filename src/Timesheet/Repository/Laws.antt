-- ===== src/Timesheet/Repository/Laws.antt =====
-- What a correction leaves behind, and what is listed.
use mathlib.Core.Path.{subst, sym}
use go_time_recording.Base.{
  ap, ℕ, ◌+◌, ◌%◌, ◌≡◌, ◌≢◌, ◌∙◌, refl, arith, Bool, some, List, [], ◌∷◌, ◌++◌, String, ◌==◌,
  if◌then◌else◌, keep, count, length, take, drop, ◌<◌,
}
use go_time_recording.Base.Order.{sort_less, length-sort_less}
use go_time_recording.Errors.{ok_injective, ok}
use go_time_recording.Store
use go_time_recording.Store.{Store, uint_mod}
use go_time_recording.Timesheet.{Timesheet, says, revision_of}
use go_time_recording.Timesheet.Filter.{TimesheetFilter, matches_filter, over_whole_days}
use go_time_recording.Timesheet.Filter.Laws.{page-take-drop}
use go_time_recording.Timesheet.Repository.{
  TimesheetRepository, update, corrected, keep_revision, get_by_id, newer, get_by_filter,
  count_by_filter,
}

module _ {H : Type 0} (eq : H → H → Bool) (now : ℕ) (t before : Timesheet H)
    (r : TimesheetRepository H) where
  abbrev stored : Store (Timesheet H)
  stored = record r.store {
    items = Store.write t.id (some (corrected eq now t before)) r.store.items;
  }

  update-eq :
      r.store.items t.id ≡ some before
      → update eq now t r
        ≡ ok
            (corrected eq now t before, keep_revision eq now t before (record r { store = stored }))
  unfolding update Store.update
  update-eq e = rw (e, update) (rw (e, Store.update))

  get-kept :
      get_by_id t.id (keep_revision eq now t before (record r { store = stored }))
      ≡ ok (corrected eq now t before)
  unfolding get_by_id Store.get keep_revision
  get-kept = ground arith

  get-others :
      (n : ℕ)
      → n ≢ t.id
      → get_by_id n (keep_revision eq now t before (record r { store = stored })) ≡ get_by_id n r
  unfolding get_by_id Store.get keep_revision
  get-others n other = ground arith

  -- A correction leaves every other entry as it reads.
  pub update-others :
      (t' : Timesheet H) (r' : TimesheetRepository H)
      → r.store.items t.id ≡ some before
      → update eq now t r ≡ ok (t', r')
      → (n : ℕ) → n ≢ t.id
      → get_by_id n r' ≡ get_by_id n r
  update-others t' r' there done n other =
      subst (λ x. get_by_id n x.1 ≡ get_by_id n r) (ok_injective (sym (update-eq there) ∙ done))
        (get-others n other)

  -- A correction that succeeds, of the version that was stored.
  pub update-ok :
      (t' : Timesheet H) (r' : TimesheetRepository H)
      → r.store.items t.id ≡ some before
      → update eq now t r ≡ ok (t', r')
      → (t' ≡ corrected eq now t before) × (get_by_id t.id r' ≡ ok t')
  update-ok t' r' there done =
      let same = ok_injective (sym (update-eq there) ∙ done) in
      let is = ap (λ x. x.0) same in
      (sym is, subst (λ x. get_by_id t.id x.1 ≡ ok x.0) same get-kept)

  -- Correcting an entry that is there succeeds. It keeps when and by whom the entry was recorded
  -- and says when it was corrected. Where the entry says something else now, what it said before is
  -- appended to the history under the corrector's name; else the history stays as it was, and so
  -- does the name of whoever corrected it last.
  pub update-history :
      r.store.items t.id ≡ some before
      → (after : TimesheetRepository H) × (kept : Timesheet H) × (update eq now t r
          ≡ ok (kept, after))
        × (get_by_id t.id after ≡ ok kept)
        × (kept.created_at ≡ before.created_at)
        × (kept.recorded_by ≡ before.recorded_by)
        × (kept.updated_at ≡ now)
        × (kept.duration_hours ≡ t.duration_hours)
        × (kept.updated_by ≡ (if says eq before t then before.updated_by else t.updated_by))
        × (after.revisions ≡ (
            if says eq before t
            then r.revisions
            else r.revisions
              ++ record (revision_of before now) {
                id = (r.next_revision + 1) % uint_mod;
                replaced_by = t.updated_by;
              }
                ∷ []))
  update-history e =
      let written = corrected eq now t before in
      (
        keep_revision eq now t before (record r { store = stored }),
        written,
        update-eq e,
        get-kept,
        unfold corrected in refl,
        unfold corrected in refl,
        unfold corrected in refl,
        unfold corrected in refl,
        unfold corrected in refl,
        unfold keep_revision in ground arith,
      )

length-keep : {A : Type 0} (p : A → Bool) (xs : List A) → length (keep p xs) ≡ count p xs
length-keep p [] = refl
length-keep p (x ∷ xs) = ground (arith, length-keep p xs)

-- A listing that pages can hold has the entries counted, cut to the page: without a limit as many
-- as the count says, and with one the part from the offset on.
pub get_by_filter-count :
    {H : Type 0} (found : String → String → Bool) (f : TimesheetFilter) (r : TimesheetRepository H)
    → f.offset + f.limit < uint_mod
    → (entries : List (Timesheet H)) × (length entries ≡ count_by_filter found f r)
      × (get_by_filter found f r
          ≡ some (if f.limit == 0 then entries else take f.limit (drop f.offset entries)))
unfolding get_by_filter count_by_filter
get_by_filter-count found f r h =
    let whole = over_whole_days f in
    let matching = keep (λ t. matches_filter found t whole) (Store.all r.store) in
    (
      sort_less newer matching,
      length-sort_less newer matching
          ∙ length-keep (λ t. matches_filter found t whole) (Store.all r.store),
      page-take-drop (sort_less newer matching) f.limit f.offset h,
    )
