-- ===== src/Pending/Tests.antt =====
-- Two ceremonies, one of them abandoned and swept.
use go_time_recording.Base.{ℕ, ◌≡◌, refl, arith, none, some, List, [], ◌∷◌}
use go_time_recording.Pending.{new_pending, take, put}
use go_time_recording.Pending.Refines.{
  Event, put_at, take_at, answers, kept_answers, answers_refine_kept,
}

abbrev events : List (Event ℕ)
events =
    put_at 0 "a" 1
    ∷ put_at 0 "b" 2
    ∷ take_at 5 "a"
    ∷ put_at 1000000000000 "c" 3
    ∷ take_at 1000000000001 "b"
    ∷ take_at 1000000000002 "c"
    ∷ []

answered : answers events (new_pending 300000000000) ≡ some 1 ∷ none ∷ some 3 ∷ []
unfolding take put
answered = refl

answers_refine_kept_example :
    answers events (new_pending 300000000000) ≡ kept_answers 300000000000 events (λ key. none)
answers_refine_kept_example =
    answers_refine_kept 300000000000 0 events
      (omega arith, (omega arith, (omega arith, (omega arith, (omega arith, (omega arith, tt))))))
