-- ===== src/Store/Laws.antt =====
-- The store against a finite map with fresh ids.
use mathlib.Core.Path.{subst}
use native.Mathlib.Nat.{le_refl}
use go_time_recording.Base.{
  ℕ, zero, suc, ◌+◌, ◌-◌, ◌%◌, ◌≤◌, ◌<◌, ◌≡◌, ◌≢◌, ◌∙◌, ap, refl, arith, Option, none, some, [],
  ◌∷◌, ◌++◌, ◌==◌, if◌then◌else◌, Option-cases, inl, inr, ◌⊎◌,
}
use go_time_recording.Errors.{Error, ok, err}
use go_time_recording.Store.{Store, uint_mod, write, add, get, collect, all, update, delete}

module _ {ℓ} {A : Type ℓ} where
  -- Ids start at 1 and grow: nothing is stored under 0, or under an id that is still to be given.
  pub record IsValid (s : Store A) : Type ℓ where
    pub ids_from_one : 1 ≤ s.next_id
    pub ids_fit : s.next_id < uint_mod
    pub none_at_zero : s.items 0 ≡ none
    pub fresh : (id : ℕ) → s.next_id ≤ id → s.items id ≡ none

  collect-write :
      (rounds id : ℕ) (items : ℕ → Option A) (n : ℕ) (v : Option A)
      → id + rounds ≤ n
      → collect rounds id (write n v items) ≡ collect rounds id items
  unfolding collect
  collect-write zero id items n v h = refl
  collect-write (suc rounds) id items n v h =
      ground (arith, collect-write rounds (id + 1) items n v)

  collect-suc :
      (rounds id n : ℕ) (items : ℕ → Option A) (item : A)
      → id + rounds ≡ n
      → items n ≡ some item
      → collect (suc rounds) id items ≡ collect rounds id items ++ item ∷ []
  unfolding collect
  collect-suc zero id n items item e h =
      let here : items id ≡ some item = subst (λ k. items k ≡ some item) (omega arith) h in
      rw (here, collect)
  collect-suc (suc rounds) id n items item e h = elim (Option-cases (items id)) [
    | inl missing ↦ rw (missing, collect) (collect-suc rounds (id + 1) n items item (omega arith) h)
    | inr (x, there) ↦
        rw (there, collect) (ap (◌∷◌ x) (collect-suc rounds (id + 1) n items item (omega arith) h))
  ]

  add-all :
      (item : A) (set_id : A → ℕ → A) (s : Store A)
      → 1 ≤ s.next_id
      → s.next_id + 1 < uint_mod
      → all (add item set_id s).1 ≡ all s ++ set_id item s.next_id ∷ []
  unfolding add all
  add-all item set_id s one h =
      let stored = set_id item s.next_id in
      let after = write s.next_id (some stored) s.items in
      let rounds : (s.next_id + 1) % uint_mod - 1 ≡ suc (s.next_id - 1) = omega arith in
      rw rounds (
        collect-suc (s.next_id - 1) 1 s.next_id after stored (omega arith) (ground arith)
        ∙ ap (λ l. l ++ stored ∷ [])
            (collect-write (s.next_id - 1) 1 s.items s.next_id (some stored) (omega arith)))

  add-IsValid :
      (item : A) (set_id : A → ℕ → A) (s : Store A)
      → IsValid s
      → s.next_id + 1 < uint_mod
      → IsValid (add item set_id s).1
  unfolding add
  add-IsValid item set_id s v h = record {
    ids_from_one = omega arith;
    ids_fit = omega arith;
    none_at_zero = ground (arith, v.none_at_zero, v.ids_from_one);
    fresh = λ id le. ground (arith, v.fresh id);
  }

  -- Adding gives an id that was not in use, reads back under it, leaves every other id as it was,
  -- and appends to the list of all. The ids must not have run out.
  pub add_lem :
      (item : A) (set_id : A → ℕ → A) (s : Store A) (id : ℕ)
      → IsValid s
      → s.next_id + 1 < uint_mod
      → IsValid (add item set_id s).1
        × (s.items s.next_id ≡ none)
        × (get id (add item set_id s).1
            ≡ (if id == s.next_id then ok (set_id item s.next_id) else get id s))
        × (all (add item set_id s).1 ≡ all s ++ set_id item s.next_id ∷ [])
  add_lem item set_id s id v h = (
    add-IsValid item set_id s v h,
    v.fresh s.next_id (le_refl _),
    unfold add get in ground arith,
    add-all item set_id s v.ids_from_one h,
  )

  -- An update and a deletion are refused exactly where a read is. Else the id then reads as the new
  -- item, or as nothing, and every other id reads as before.
  pub update-get :
      (id : ℕ) (item : A) (s : Store A) (n : ℕ)
      → ((update id item s ≡ err (Error.not_found s.entity id)) × (s.items id ≡ none))
        ⊎ ((s' : Store A) × (update id item s ≡ ok (item, s'))
            × (s.items id ≢ none)
            × (s'.next_id ≡ s.next_id)
            × (get n s' ≡ (if n == id then ok item else get n s)))
  unfolding update get
  update-get id item s n = elim (Option-cases (s.items id)) [
    | inl missing ↦ inl (rw (missing, update), missing)
    | inr (old, there) ↦ inr (
      record s { items = write id (some item) s.items },
      rw (there, update),
      (λ e. cc),
      refl,
      ground arith,
    )
  ]

  pub delete-get :
      (id : ℕ) (s : Store A) (n : ℕ)
      → ((delete id s ≡ err (Error.not_found s.entity id)) × (s.items id ≡ none))
        ⊎ ((s' : Store A) × (delete id s ≡ ok s')
            × (s.items id ≢ none)
            × (get n s' ≡ (if n == id then err (Error.not_found s.entity n) else get n s)))
  unfolding delete get
  delete-get id s n = elim (Option-cases (s.items id)) [
    | inl missing ↦ inl (rw (missing, delete), missing)
    | inr (old, there) ↦
        inr
          (record s { items = write id none s.items }, rw (there, delete), (λ e. cc), ground arith)
  ]

  -- What an update that succeeded returns and leaves.
  pub update-ok :
      (id : ℕ) (item : A) (s : Store A) (x : A) (s' : Store A)
      → update id item s ≡ ok (x, s')
      → (x ≡ item) × ((n : ℕ) → get n s' ≡ (if n == id then ok item else get n s))
  update-ok id item s x s' done = (written, reads)
    where
      written : x ≡ item
      written = elim (update-get id item s id) [
        | inl (refused, missing) ↦ cc
        | inr (after, e, there, ids, reads_as) ↦ cc
      ]

      reads : (n : ℕ) → get n s' ≡ (if n == id then ok item else get n s)
      reads n = elim (update-get id item s n) [
        | inl (refused, missing) ↦ cc
        | inr (after, e, there, ids, reads_as) ↦
            let same : after ≡ s' = cc in
            subst (λ r. get n r ≡ (if n == id then ok item else get n s)) same reads_as
      ]
