-- ===== src/Timer/Laws.antt =====
-- What a clock that is stopped or switched leaves.
use mathlib.Core.Path.{subst}
use go_time_recording.Base.{
  ℕ, ◌≤◌, ◌≡◌, ap, sym, arith, Bool, false, Option, none, some, String, ◌==◌, if◌then◌else◌,
  Option-cases, inl, inr,
}
use go_time_recording.Base.Int.{ℤ}
use go_time_recording.Errors.{ok, bind-ok, check-ok, refuse_if-ok}
use go_time_recording.Float.{Float64}
use go_time_recording.Timesheet.{Timesheet}
use go_time_recording.Timesheet.Repository.{get_by_id}
use go_time_recording.Booking.Checks.{
  Booking, min_bookable_hours, hours_per_day, normalize_project_id,
}
use go_time_recording.Booking.Create.{create_timesheet}
use go_time_recording.Booking.Create.Laws.{create_timesheet-ok}
use go_time_recording.Timer.{
  RunningTimer, Clocks, truncated, put_clock, discard, book, stop, switch, running, end_of, elapsed,
  booking_day, command_of, clock_at, id_or_zero, require_startable,
}

pub running-ok :
    {H : Type 0} (user : ℕ) (s : Clocks H) (t : RunningTimer)
    → running user s ≡ ok t
    → s.timers user ≡ some t
unfolding running
running-ok user s t h = elim (Option-cases (s.timers user)) [
  | inl missing ↦ cc
  | inr (u, there) ↦ cc
]

pub end_of-ok :
    (now : ℕ) (t : RunningTimer) (ended_at : Option ℕ) (end : ℕ)
    → end_of now t ended_at ≡ ok end
    → end ≤ truncated now
unfolding end_of
end_of-ok now t none end h = ground arith
end_of-ok now t (some at) end h = ground arith

module _ (F : Float64) (found : String → String → Bool) (daily_cap : F.Number) where
  open F use {Number, lt, hours_of}

  pub book-ok :
      (saved : ℕ) (t : RunningTimer) (zone : Option (ℕ → ℤ)) (end : ℕ) (s : Clocks Number)
      (entry : Timesheet Number) (s' : Clocks Number)
      → book F found daily_cap saved t zone end s ≡ ok (entry, s')
      → (b : Booking Number) × (create_timesheet F found daily_cap saved
            (command_of t zone (hours_of (elapsed t end)))
            s.booking
          ≡ ok (entry, b))
        × (lt (hours_of (elapsed t end)) (min_bookable_hours F) ≡ false)
        × (lt (hours_per_day F) (hours_of (elapsed t end)) ≡ false)
        × (s' ≡ discard t.user_id (record s { booking = b }))
  unfolding book
  book-ok saved t zone end s entry s' h =
      let (long_enough, h1) = refuse_if-ok _ _ _ h in
      let (short_enough, h2) = refuse_if-ok _ _ _ h1 in
      let ((made, b), e, h3) =
        bind-ok
          (create_timesheet F found daily_cap saved (command_of t zone (hours_of (elapsed t end)))
            s.booking)
          _ h2 in
      (b, cc, long_enough, short_enough, cc)

  -- What booking a clock leaves: the entry, stored, and no clock of its owner.
  pub book-entry :
      (saved : ℕ) (t : RunningTimer) (zone : Option (ℕ → ℤ)) (end : ℕ) (s : Clocks Number)
      (entry : Timesheet Number) (s' : Clocks Number)
      → book F found daily_cap saved t zone end s ≡ ok (entry, s')
      → (entry.user_id ≡ t.user_id)
        × (entry.project_id ≡ normalize_project_id (id_or_zero t.project_id))
        × (entry.date ≡ booking_day t zone)
        × (entry.duration_hours ≡ hours_of (elapsed t end))
        × (entry.description ≡ t.description)
        × (get_by_id entry.id s'.booking.entries ≡ ok entry)
        × ((n : ℕ) → s'.timers n ≡ (if n == t.user_id then none else s.timers n))
  unfolding discard
  book-entry saved t zone end s entry s' h =
      let (b, made, long_enough, short_enough, after) = book-ok saved t zone end s entry s' h in
      let accepted =
        create_timesheet-ok F found daily_cap saved (command_of t zone (hours_of (elapsed t end)))
          s.booking entry b made in
      let is_entry = accepted.is_entry in
      (
        ap Timesheet.user_id is_entry,
        ap Timesheet.project_id is_entry,
        ap Timesheet.date is_entry,
        ap Timesheet.duration_hours is_entry,
        ap Timesheet.description is_entry,
        subst (λ (x : Clocks Number). get_by_id entry.id x.booking.entries ≡ ok entry) (sym after)
            accepted.reads_back,
        λ n. ap (λ (x : Clocks Number). x.timers n) after,
      )

  -- What a stop leaves: the user's running clock is booked as an entry of its owner, project and description,
  -- on the day it was started on, of exactly the hours from its start to an end that is not
  -- in the future. The entry is stored and reads back. Of the clocks only that of its owner is gone.
  abbrev pub IsStopped :
      ℕ → ℕ → Option (ℕ → ℤ) → Option ℕ → Clocks Number → Timesheet Number → Clocks Number → Type 0
  IsStopped now user zone ended_at s entry s' =
      (t : RunningTimer) × (end : ℕ) × (s.timers user ≡ some t)
      × (end_of now t ended_at ≡ ok end)
      × (end ≤ truncated now)
      × (entry.user_id ≡ t.user_id)
      × (entry.project_id ≡ normalize_project_id (id_or_zero t.project_id))
      × (entry.date ≡ booking_day t zone)
      × (entry.duration_hours ≡ hours_of (elapsed t end))
      × (entry.description ≡ t.description)
      × (get_by_id entry.id s'.booking.entries ≡ ok entry)
      × ((n : ℕ) → s'.timers n ≡ (if n == t.user_id then none else s.timers n))

  -- A stop that succeeds books exactly the time that was measured, as `IsStopped` describes it.
  pub stop_lem :
      (now saved user : ℕ) (zone : Option (ℕ → ℤ)) (ended_at : Option ℕ) (s : Clocks Number)
      (entry : Timesheet Number) (s' : Clocks Number)
      → stop F found daily_cap now saved user zone ended_at s ≡ ok (entry, s')
      → IsStopped now user zone ended_at s entry s'
  unfolding stop
  stop_lem now saved user zone ended_at s entry s' h =
      let (t, got, h1) = bind-ok (running user s) _ h in
      let (end, ends, h2) = bind-ok (end_of now t ended_at) _ h1 in
      let (owner, on_project, day, hours, said, reads_back, clocks) =
        book-entry saved t zone end s entry s' h2 in
      (
        t,
        end,
        running-ok user s t got,
        ends,
        end_of-ok now t ended_at end ends,
        owner,
        on_project,
        day,
        hours,
        said,
        reads_back,
        clocks,
      )

  pub switch-ok :
      (now saved user : ℕ) (zone : Option (ℕ → ℤ)) (project : Option ℕ)
      (description : Option String) (s : Clocks Number) (entry : Timesheet Number)
      (next : RunningTimer) (s' : Clocks Number)
      → switch F found daily_cap now saved user zone project description s ≡ ok ((entry, next), s')
      → (t : RunningTimer) × (between : Clocks Number) × (s.timers user ≡ some t)
        × (book F found daily_cap saved t zone (truncated now) s ≡ ok (entry, between))
        × (next ≡ clock_at user project description (truncated now))
        × (s' ≡ put_clock (clock_at user project description (truncated now)) between)
  unfolding switch
  switch-ok now saved user zone project description s entry next s' h =
      let (t, got, h1) = bind-ok (running user s) _ h in
      let (startable, h2) = check-ok (require_startable user project description s.booking) _ h1 in
      let ((made, between), booked, h3) =
        bind-ok (book F found daily_cap saved t zone (truncated now) s) _ h2 in
      (t, between, running-ok user s t got, cc, cc, cc)

  -- What a switch leaves: the user's running clock is booked up to now, and the clock that runs then
  -- is of the user, for the new project, and started at the very second the entry ends at.
  abbrev pub IsSwitched :
      ℕ
      → ℕ
      → Option (ℕ → ℤ)
      → Option ℕ
      → Option String
      → Clocks Number
      → Timesheet Number
      → RunningTimer
      → Clocks Number
      → Type 0
  IsSwitched now user zone project description s entry next s' =
      (t : RunningTimer) × (s.timers user ≡ some t)
      × (entry.user_id ≡ t.user_id)
      × (entry.date ≡ booking_day t zone)
      × (entry.duration_hours ≡ hours_of (elapsed t (truncated now)))
      × (get_by_id entry.id s'.booking.entries ≡ ok entry)
      × (next ≡ clock_at user project description (truncated now))
      × ((n : ℕ)
          → s'.timers n
            ≡ (if n == user then some next else if n == t.user_id then none else s.timers n))

  -- A switch that succeeds leaves no gap between the entry and the next clock, as `IsSwitched`
  -- describes it.
  pub switch_lem :
      (now saved user : ℕ) (zone : Option (ℕ → ℤ)) (project : Option ℕ)
      (description : Option String) (s : Clocks Number) (entry : Timesheet Number)
      (next : RunningTimer) (s' : Clocks Number)
      → switch F found daily_cap now saved user zone project description s ≡ ok ((entry, next), s')
      → IsSwitched now user zone project description s entry next s'
  unfolding put_clock
  switch_lem now saved user zone project description s entry next s' h =
      let (t, between, runs, booked, is_next, after) =
        switch-ok now saved user zone project description s entry next s' h in
      let (owner, on_project, day, hours, said, reads_back, clocks) =
        book-entry saved t zone (truncated now) s entry between booked in
      (
        t,
        runs,
        owner,
        day,
        hours,
        rw after reads_back,
        is_next,
        λ n.
            rw (after, is_next)
              (ap
                (λ x.
                  if n == user then some (clock_at user project description (truncated now)) else x)
                (clocks n)),
      )
