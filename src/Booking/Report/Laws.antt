-- ===== src/Booking/Report/Laws.antt =====
-- The two reports agree on what somebody booked on a project.
use mathlib.Core.Path.{subst, sym}
use go_time_recording.Base.{
  ℕ, ◌≡◌, ◌≢◌, ◌∙◌, ap, refl, arith, Bool, true, false, List, [], ◌∷◌, String, ◌==◌, inl, inr, All,
  All-selected,
}
use go_time_recording.Base.Order.{sort_less-All}
use go_time_recording.Calendar.{Moment}
use go_time_recording.Errors.{Result, ok, ◌>>=◌, ◌>>◌, Result-cases, ok_injective}
use go_time_recording.Float.{Float64}
use go_time_recording.Float.Totals.{Totals, no_totals}
use go_time_recording.Store
use go_time_recording.Project.{require_visible}
use go_time_recording.Timesheet.{Timesheet}
use go_time_recording.Timesheet.Filter.{matches_filter, over_whole_days, page}
use go_time_recording.Timesheet.Repository.{get_by_filter, newer}
use go_time_recording.Booking.Checks.{Booking, entries_or_panic}
use go_time_recording.Booking.Report.{
  require_scope, report_filter, sum_hours, sum_by_user, own_time_report, project_time_report,
}

module _ (F : Float64) where
  open F use {Number, zero_hours, add}

  abbrev IsOf : ℕ → Timesheet Number → Type 0
  IsOf user t = t.user_id ≡ user

  -- Entries of one person are summed under that person.
  sum_by_user-own :
      (user : ℕ) (es : List (Timesheet Number)) (report : Totals F)
      → All (IsOf user) es
      → sum_by_user F es report user ≡ sum_hours F es (report user)
  sum_by_user-own user [] report all = refl
  sum_by_user-own user (t ∷ rest) report all =
      sum_by_user-own user rest _ all.1 ∙ ap (sum_hours F rest) (ground (arith, all.0))

  sum_by_user-other :
      (user other : ℕ) (es : List (Timesheet Number)) (report : Totals F)
      → other ≢ user
      → All (IsOf user) es
      → sum_by_user F es report other ≡ report other
  sum_by_user-other user other [] report n all = refl
  sum_by_user-other user other (t ∷ rest) report n all =
      sum_by_user-other user other rest _ n all.1 ∙ ground (arith, all.0)

  All-unit : (es : List (Timesheet Number)) → All (λ t. Unit {0}) es
  All-unit [] = tt
  All-unit (t ∷ rest) = (tt, All-unit rest)

  module _ (found : String → String → Bool) (user project : ℕ) (start end : Moment)
      (b : Booking Number) where
    abbrev filtered : Result (List (Timesheet Number))
    filtered =
        entries_or_panic F
          (get_by_filter found (report_filter user project false start end) b.entries)

    selected-IsOf :
        (t : Timesheet Number)
        → user ≢ 0
        → matches_filter found t (over_whole_days (report_filter user project false start end))
          ≡ true
        → t.user_id ≡ user
    unfolding matches_filter over_whole_days
    selected-IsOf t named h = ground arith

    filtered-IsOf :
        (es : List (Timesheet Number)) → user ≢ 0 → filtered ≡ ok es → All (IsOf user) es
    unfolding get_by_filter page
    filtered-IsOf es named done = subst (All (IsOf user)) (ok_injective done) (
        sort_less-All newer (IsOf user) _ (
          All-selected (λ t. Unit {0}) (IsOf user)
            (λ t.
              matches_filter found t (over_whole_days (report_filter user project false start end)))
            (λ t any matches. selected-IsOf t named matches) (Store.all b.entries.store)
            (All-unit (Store.all b.entries.store))))

    abbrev own_report : Result Number
    own_report =
        own_time_report F found (record { project_id = project; unassigned = false }) start end user
          b

    abbrev reported : Result (Totals F)
    reported = project_time_report F found project start end user user b

    -- Past the scope both reports sum the same entries.
    sums-agree :
        (checked : Result (Unit {0}))
        → user ≢ 0
        → (checked >> (filtered >>= λ es. ok (sum_hours F es zero_hours))) ≡ (
            (checked >> (filtered >>= λ es. ok (sum_by_user F es (no_totals F)))) >>= λ report.
            ok (report user))
    sums-agree checked named = elim (Result-cases checked) [
      | inr (e, refused) ↦ rw refused refl
      | inl (u, passed) ↦ rw passed (elim (Result-cases filtered) [
        | inr (e, refused) ↦ rw refused refl
        | inl (es, read) ↦
            rw read
              (ap ok (sym (sum_by_user-own user es (no_totals F) (filtered-IsOf es named read))))
      ])
    ]

    sums-other :
        (checked : Result (Unit {0})) (other : ℕ)
        → user ≢ 0
        → other ≢ user
        → ((checked >> (filtered >>= λ es. ok (sum_by_user F es (no_totals F)))) >>= λ report.
            ok (report other))
          ≡ ((checked >> (filtered >>= λ es. ok (sum_by_user F es (no_totals F)))) >>= λ report.
              ok zero_hours)
    sums-other checked other named n = elim (Result-cases checked) [
      | inr (e, refused) ↦ rw refused refl
      | inl (u, passed) ↦ rw passed (elim (Result-cases filtered) [
        | inr (e, refused) ↦ rw refused refl
        | inl (es, read) ↦
            rw read (
              ap ok (sum_by_user-other user other es (no_totals F) n (filtered-IsOf es named read)))
      ])
    ]

    -- The report on somebody's own time on a project succeeds exactly if the report on that project
    -- does that they ask of their own hours, and says what that one says of them; where one refuses,
    -- the other does with the same error. The report on the project has nobody else's hours.
    pub reports_agree :
        (other : ℕ)
        → user ≢ 0
        → project ≢ 0
        → other ≢ user
        → (own_report ≡ (reported >>= λ report. ok (report user)))
          × ((reported >>= λ report. ok (report other)) ≡ (reported >>= λ report. ok zero_hours))
    unfolding project_time_report own_time_report require_scope
    reports_agree other named chosen n =
        let absent : (project == 0) ≡ false = ground arith in
        elim (Result-cases (Store.get project b.projects)) [
          | inr (e, missing) ↦ rw absent (rw missing (refl, refl))
          | inl (p, there) ↦ rw absent (
              rw there (
                sums-agree (require_visible p user) named,
                sums-other (require_visible p user) other named n,
              ))
        ]
