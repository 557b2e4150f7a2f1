-- ===== src/Pending/Refines.antt =====
-- The store that is swept answers as one that never forgets.
use mathlib.Core.Path.{subst, sym}
use text.Mathlib.TextEquality.{eq_iff}
use go_time_recording.Base.{
  ℕ, ◌+◌, ◌-◌, ◌≤◌, ◌≡◌, ◌⊎◌, inl, inr, ◌∙◌, ap, refl, arith, Option, none, some, List, [], ◌∷◌,
  String, ltb, leb, str_eq, Bool-cases,
}
use go_time_recording.Pending.{
  Waiting, PendingStore, unless_expired, write, put, value_at, take, new_pending,
  pending_sweep_interval,
}

-- What is done to a store, and when.
pub data Event (T : Type 0) : Type 0 where
  put_at : ℕ → String → T → Event T
  take_at : ℕ → String → Event T

abbrev pub time_of : {T : Type 0} → Event T → ℕ
time_of (put_at now token value) = now
time_of (take_at now token) = now

-- Time does not run backwards.
abbrev pub IsOrdered : {T : Type 0} → ℕ → List (Event T) → Type 0
IsOrdered from [] = Unit
IsOrdered from (e ∷ rest) = (from ≤ time_of e) × IsOrdered (time_of e) rest

module _ {T : Type 0} where
  -- What the second halves are answered, in their order.
  abbrev pub answers : List (Event T) → PendingStore T → List (Option T)
  answers [] s = []
  answers (put_at now token value ∷ rest) s = answers rest (put token value now s)
  answers (take_at now token ∷ rest) s = (take token now s).0 ∷ answers rest (take token now s).1

  -- The contract: a first half waits under its token until it is taken or replaced, and is not given
  -- out past its lifetime. Nothing is ever swept.
  abbrev pub kept_answers : ℕ → List (Event T) → (String → Option (Waiting T)) → List (Option T)
  kept_answers lifetime [] m = []
  kept_answers lifetime (put_at now token value ∷ rest) m =
      kept_answers lifetime rest
        (write token (some (record { value = value; expires = now + lifetime })) m)
  kept_answers lifetime (take_at now token ∷ rest) m =
      value_at now (m token) ∷ kept_answers lifetime rest (write token none m)

  -- Nothing but what has expired is missing.
  abbrev Missing : ℕ → Option (Waiting T) → Option (Waiting T) → Type 0
  Missing now stored kept = (stored ≡ kept) ⊎ ((stored ≡ none) × (value_at now kept ≡ none))

  value_at-later :
      (now later : ℕ) (o : Option (Waiting T))
      → now ≤ later
      → value_at now o ≡ none
      → value_at later o ≡ none
  value_at-later now later none le h = refl
  value_at-later now later (some w) le h = ground arith

  unless_expired-Missing :
      (now : ℕ) (stored kept : Option (Waiting T))
      → Missing now stored kept
      → Missing now (unless_expired now stored) kept
  unless_expired-Missing now none kept h = h
  unless_expired-Missing now (some w) kept h = elim (Bool-cases (ltb w.expires now)) [
    | inl past ↦ rw past (elim h [
      | inl same ↦ inr (refl, subst (λ o. value_at now o ≡ none) same (rw past refl))
      | inr (gone, unseen) ↦ inr (refl, unseen)
    ])
    | inr fresh ↦ rw fresh h
  ]

  Missing-value_at :
      (now : ℕ) (stored kept : Option (Waiting T))
      → Missing now stored kept
      → value_at now stored ≡ value_at now kept
  Missing-value_at now stored kept h = elim h [
    | inl same ↦ ap (value_at now) same
    | inr (gone, unseen) ↦ ap (value_at now) gone ∙ sym unseen
  ]

  Missing-later :
      (now later : ℕ) (stored kept : Option (Waiting T))
      → now ≤ later
      → Missing now stored kept
      → Missing later stored kept
  Missing-later now later stored kept le h = elim h [
    | inl same ↦ inl same
    | inr (gone, unseen) ↦ inr (gone, value_at-later now later kept le unseen)
  ]

  -- The store stands for what was kept, but for what has expired.
  abbrev StandsFor : ℕ → PendingStore T → (String → Option (Waiting T)) → Type 0
  StandsFor now s m = (key : String) → Missing now (s.by_token key) (m key)

  StandsFor-later :
      (now later : ℕ) (s : PendingStore T) (m : String → Option (Waiting T))
      → now ≤ later
      → StandsFor now s m
      → StandsFor later s m
  StandsFor-later now later s m le h key =
      Missing-later now later (s.by_token key) (m key) le (h key)

  write-Missing :
      (now : ℕ) (token key : String) (w : Option (Waiting T)) (f g : String → Option (Waiting T))
      → Missing now (f key) (g key)
      → Missing now (write token w f key) (write token w g key)
  write-Missing now token key w f g h = elim (Bool-cases (str_eq key token)) [
    | inl same ↦ rw same (inl refl)
    | inr other ↦ rw other h
  ]

  put-StandsFor :
      (now : ℕ) (token : String) (value : T) (s : PendingStore T) (m : String → Option (Waiting T))
      → StandsFor now s m
      → StandsFor now
          (put token value now s)
          (write token (some (record { value = value; expires = now + s.lifetime })) m)
  unfolding put
  put-StandsFor now token value s m h key =
      elim (Bool-cases (leb pending_sweep_interval (now - s.last_sweep))) [
        | inl due ↦ rw due (
            write-Missing now token key _ (λ k. unless_expired now (s.by_token k)) m
              (unless_expired-Missing now (s.by_token key) (m key) (h key)))
        | inr early ↦ rw early (write-Missing now token key _ s.by_token m (h key))
      ]

  put-lifetime :
      (now : ℕ) (token : String) (value : T) (s : PendingStore T)
      → (put token value now s).lifetime ≡ s.lifetime
  unfolding put
  put-lifetime now token value s = refl

  -- From a store that stands for what was kept, every second half is answered the same.
  answers_refine :
      (now : ℕ) (events : List (Event T)) (s : PendingStore T) (m : String → Option (Waiting T))
      → IsOrdered now events
      → StandsFor now s m
      → answers events s ≡ kept_answers s.lifetime events m
  unfolding take
  answers_refine now [] s m ordered h = refl
  answers_refine now (put_at at token value ∷ rest) s m ordered h =
      let kept = write token (some (record { value = value; expires = at + s.lifetime })) m in
      answers_refine at rest (put token value at s) kept ordered.1
        (put-StandsFor at token value s m (StandsFor-later now at s m ordered.0 h))
      ∙ ap (λ l. kept_answers l rest kept) (put-lifetime at token value s)
  answers_refine now (take_at at token ∷ rest) s m ordered h =
      let h' = StandsFor-later now at s m ordered.0 h in
      let left = record s { by_token = write token none s.by_token } in
      ap (λ o. o ∷ answers rest left) (Missing-value_at at (s.by_token token) (m token) (h' token))
      ∙ ap (◌∷◌ (value_at at (m token))) (
          answers_refine at rest left (write token none m) ordered.1
            (λ key. write-Missing at token key none s.by_token m (h' key)))

  -- Whatever first halves are started and second halves come, in whatever order, a store that
  -- starts empty answers every second half as one would that keeps each first half until it is taken
  -- or replaced and gives none out past its lifetime: sweeping takes nothing that could still have
  -- been given out. Time must not run backwards.
  pub answers_refine_kept :
      (lifetime now : ℕ) (events : List (Event T))
      → IsOrdered now events
      → answers events (new_pending lifetime) ≡ kept_answers lifetime events (λ key. none)
  answers_refine_kept lifetime now events ordered =
      answers_refine now events (new_pending lifetime) (λ key. none) ordered (λ key. inl refl)

  -- A token is good for one second half: until a first half is put under it again, it is refused.
  pub take_once :
      (token : String) (now : ℕ) (s : PendingStore T) (later : ℕ)
      → (take token later (take token now s).1).0 ≡ none
  unfolding take
  take_once token now s later = rw ((eq_iff token token).1 refl) refl
