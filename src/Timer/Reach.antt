-- ===== src/Timer/Reach.antt =====
-- The clocks as a state machine: what can happen to them, and which states can come about. The
-- wall clock is taken never to run back; the code does not see to that, since `readClock` drops the
-- monotonic reading.
use mathlib.Core.Path.{subst}
use go_time_recording.Base.{
  ℕ, ◌≤◌, ◌≡◌, refl, arith, Bool, Option, none, some, ap, ◌∙◌, sym, String, ltb, ◌==◌, Bool-cases,
  inl, inr,
}
use go_time_recording.Base.Int.{ℤ}
use go_time_recording.Errors.{Error, ok, err, bind-ok, check-ok, refuse_if-ok, ok_injective}
use go_time_recording.Float.{Float64}
use go_time_recording.Timesheet.{Timesheet}
use go_time_recording.Booking.Checks.{Booking}
use go_time_recording.Timer.Laws.{running-ok, book-ok, switch-ok, stop_lem}
use go_time_recording.Timer.{
  RunningTimer, Clocks, truncated, put_clock, move_start, discard, start, adjust_start, set_timer,
  book, stop, switch, running, require_startable, clock_at, end_of,
}

module _ (F : Float64) (found : String → String → Bool) (daily_cap : F.Number) where
  open F use {Number}

  -- One operation of a user at the reading `now`; one that is refused changes nothing.
  pub data Step (now : ℕ) (s : Clocks Number) : Clocks Number → Type 0 where
    started :
        (user : ℕ) (project : Option ℕ) (description : Option String) (t : RunningTimer)
        (s' : Clocks Number)
        → start now user project description s ≡ ok (t, s')
        → Step now s s'
    adjusted :
        (user at : ℕ) (t : RunningTimer) (s' : Clocks Number)
        → adjust_start now user at s ≡ ok (t, s')
        → Step now s s'
    discarded : (user : ℕ) → Step now s (discard user s)
    stopped :
        (saved user : ℕ) (zone : Option (ℕ → ℤ)) (ended_at : Option ℕ) (t : Timesheet Number)
        (s' : Clocks Number)
        → stop F found daily_cap now saved user zone ended_at s ≡ ok (t, s')
        → Step now s s'
    switched :
        (saved user : ℕ) (zone : Option (ℕ → ℤ)) (project : Option ℕ) (description : Option String)
        (t : Timesheet Number) (next : RunningTimer) (s' : Clocks Number)
        → switch F found daily_cap now saved user zone project description s ≡ ok ((t, next), s')
        → Step now s s'
    -- Bookings are made and changed beside the clocks.
    booked : (b : Booking Number) → Step now s (record s { booking = b })

  pub data Reached : ℕ → Clocks Number → Type 0 where
    empty :
        (now : ℕ) (b : Booking Number) → Reached now (record { timers = λ user. none; booking = b })
    waits : (now later : ℕ) (s : Clocks Number) → now ≤ later → Reached now s → Reached later s
    acts : (now : ℕ) (s s' : Clocks Number) → Reached now s → Step now s s' → Reached now s'

-- A clock stands under its owner, and none has started in the future.
pub IsTimely : ℕ → (ℕ → Option RunningTimer) → Type 0
IsTimely now timers =
    (user : ℕ) (t : RunningTimer)
    → timers user ≡ some t
    → (t.user_id ≡ user) × (t.started_at ≤ truncated now)

write-IsTimely :
    (now user : ℕ) (t : RunningTimer) (timers : ℕ → Option RunningTimer)
    → t.user_id ≡ user
    → t.started_at ≤ truncated now
    → IsTimely now timers
    → IsTimely now (set_timer user (some t) timers)
unfolding IsTimely
write-IsTimely now user t timers owner in_time timely n u h = elim (Bool-cases (n == user)) [
  | inl same ↦ ground (arith, same)
  | inr other ↦ timely n u (ground arith)
]

clear-IsTimely :
    (now user : ℕ) (timers : ℕ → Option RunningTimer)
    → IsTimely now timers
    → IsTimely now (set_timer user none timers)
unfolding IsTimely
clear-IsTimely now user timers timely n u h = elim (Bool-cases (n == user)) [
  | inl same ↦ ground (arith, same)
  | inr other ↦ timely n u (ground arith)
]

move_start-running :
    {H : Type 0} (user at : ℕ) (s : Clocks H) (t : RunningTimer)
    → s.timers user ≡ some t
    → (move_start user at s).timers ≡ set_timer user (some (record t { started_at = at })) s.timers
unfolding move_start
move_start-running user at s t there = rw (there, move_start) refl

-- Moving the start succeeds only to a time that is not in the future, and moves no other clock.
pub adjust_start-ok :
    {H : Type 0} (now user at : ℕ) (s : Clocks H) (t : RunningTimer) (s' : Clocks H)
    → adjust_start now user at s ≡ ok (t, s')
    → (before : RunningTimer) × (s.timers user ≡ some before)
      × (t ≡ record before { started_at = truncated at })
      × (t.started_at ≤ truncated now)
      × (s'.timers ≡ set_timer user (some (record before { started_at = truncated at })) s.timers)
unfolding adjust_start
adjust_start-ok now user at s t s' h =
    let (u, got, h1) = bind-ok (running user s) _ h in
    let (past, h2) =
      refuse_if-ok (ltb (truncated now) (truncated at)) (Error.invalid "timerStartInFuture") _ h1 in
    let there = running-ok user s u got in
    let moved : move_start user (truncated at) s ≡ s' = ap (λ x. x.1) (ok_injective h2) in
    let same : record u { started_at = truncated at } ≡ t = ap (λ x. x.0) (ok_injective h2) in
    let not_after : truncated at ≤ truncated now = ground (arith, past) in
    (
      u,
      there,
      sym same,
      rw (sym same) not_after,
      ap Clocks.timers (sym moved) ∙ move_start-running user (truncated at) s u there,
    )

adjust-IsTimely :
    {H : Type 0} (now user at : ℕ) (s : Clocks H) (t : RunningTimer) (s' : Clocks H)
    → adjust_start now user at s ≡ ok (t, s')
    → IsTimely now s.timers
    → IsTimely now s'.timers
adjust-IsTimely now user at s t s' h timely =
    let (u, there, same, past, clocks) = adjust_start-ok now user at s t s' h in
    let owner : u.user_id ≡ user = unfold IsTimely in (timely user u there).0 in
    let in_time : truncated at ≤ truncated now = rw (sym (ap RunningTimer.started_at same)) past in
    rw clocks (
      write-IsTimely now user (record u { started_at = truncated at }) s.timers owner in_time
        timely)

module _ (F : Float64) (found : String → String → Bool) (daily_cap : F.Number) where
  open F use {Number}

  book-IsTimely :
      (now saved : ℕ) (t : RunningTimer) (zone : Option (ℕ → ℤ)) (end : ℕ) (s : Clocks Number)
      (entry : Timesheet Number) (s' : Clocks Number)
      → book F found daily_cap saved t zone end s ≡ ok (entry, s')
      → IsTimely now s.timers
      → IsTimely now s'.timers
  unfolding discard
  book-IsTimely now saved t zone end s entry s' h timely =
      let (b, made, least, most, after) = book-ok F found daily_cap saved t zone end s entry s' h in
      subst (λ (x : Clocks Number). IsTimely now x.timers) (sym after)
        (clear-IsTimely now t.user_id s.timers timely)

  step-IsTimely :
      (now : ℕ) (s s' : Clocks Number)
      → Step F found daily_cap now s s'
      → IsTimely now s.timers
      → IsTimely now s'.timers
  unfolding start stop put_clock discard
  step-IsTimely now s s' (started user project description t _ e) timely =
      let (startable, rest) = check-ok (require_startable user project description s.booking) _ e in
      subst (λ (x : Clocks Number). IsTimely now x.timers) (ap (λ x. x.1) (ok_injective rest))
        (write-IsTimely now user (clock_at user project description (truncated now)) s.timers refl
          (omega arith) timely)
  step-IsTimely now s s' (adjusted user at t _ e) timely =
      adjust-IsTimely now user at s t s' e timely
  step-IsTimely now s s' (discarded user) timely = clear-IsTimely now user s.timers timely
  step-IsTimely now s s' (stopped saved user zone ended_at t _ e) timely =
      let (u, got, h1) = bind-ok (running user s) _ e in
      let (end, ends, h2) = bind-ok (end_of now u ended_at) _ h1 in
      book-IsTimely now saved u zone end s t s' h2 timely
  step-IsTimely now s s' (switched saved user zone project description t next _ e) timely =
      let (u, between, runs, was_booked, is_next, after) =
        switch-ok F found daily_cap now saved user zone project description s t next s' e in
      subst (λ (x : Clocks Number). IsTimely now x.timers) (sym after)
        (write-IsTimely now user (clock_at user project description (truncated now)) between.timers
          refl (omega arith)
          (book-IsTimely now saved u zone (truncated now) s t between was_booked timely))
  step-IsTimely now s s' (booked b) timely = timely

  -- However the clocks are used, while the readings of the wall clock never run back, a user has at
  -- most the one clock that stands under their id, it is theirs, and it has not started in the future.
  pub reached-IsTimely :
      (now : ℕ) (s : Clocks Number) → Reached F found daily_cap now s → IsTimely now s.timers
  unfolding IsTimely
  reached-IsTimely now s (empty _ b) user t h = cc
  reached-IsTimely now s (waits before _ _ le r) user t h =
      let (owner, in_time) = reached-IsTimely before s r user t h in (owner, omega arith)
  reached-IsTimely now s (acts _ s0 _ r step) user t h =
      step-IsTimely now s0 s step (reached-IsTimely now s0 r) user t h

  -- In a state that is reached while the wall clock never runs back, a clock is booked once: after a
  -- stop that succeeds, any further stop of the same user is refused for there being no clock, whenever
  -- it comes.
  pub stop-stop :
      (now later saved again user : ℕ) (zone zone' : Option (ℕ → ℤ)) (ended_at ended_at' : Option ℕ)
      (s : Clocks Number) (entry : Timesheet Number) (s' : Clocks Number)
      → Reached F found daily_cap now s
      → stop F found daily_cap now saved user zone ended_at s ≡ ok (entry, s')
      → stop F found daily_cap later again user zone' ended_at' s'
        ≡ err (Error.conflict "noTimerRunning")
  unfolding stop running
  stop-stop now later saved again user zone zone' ended_at ended_at' s entry s' r h =
      let (t, end, runs, ends, past, owner, project, day, hours, said, reads_back, clocks) =
        stop_lem F found daily_cap now saved user zone ended_at s entry s' h in
      let own : t.user_id ≡ user = unfold IsTimely in (reached-IsTimely now s r user t runs).0 in
      let gone : s'.timers user ≡ none = clocks user ∙ ground (arith, own) in rw (gone, stop) refl
