-- ===== src/Store/Members.antt =====
-- The list of all items of a store has just the items that its ids read as.
use native.Mathlib.Decide.{ℕ_discrete, dec_lt}
use mathlib.Core.Path.{subst, sym}
use go_time_recording.Base.{
  ℕ, zero, suc, ◌+◌, ◌-◌, ◌≤◌, ◌<◌, ◌≡◌, ◌≢◌, ◌∙◌, refl, arith, Bool, false, Option, none, some,
  count, Option-cases, inl, inr, All,
}
use go_time_recording.Errors.{ok}
use go_time_recording.Store.{Store, get, collect, all}
use go_time_recording.Store.Laws.{IsValid}

module _ {ℓ} {A : Type ℓ} where
  some-none : {a : A} → some a ≢ none
  some-none e = cc

  pub get-some : (id : ℕ) (s : Store A) (a : A) → get id s ≡ ok a → s.items id ≡ some a
  unfolding get
  get-some id s a h = elim (Option-cases (s.items id)) [ inl missing ↦ cc | inr (b, there) ↦ cc ]

  pub some-get : (id : ℕ) (s : Store A) (a : A) → s.items id ≡ some a → get id s ≡ ok a
  unfolding get
  some-get id s a there = rw there refl

  collect-none :
      (p : A → Bool) (rounds first id : ℕ) (items : ℕ → Option A) (a : A)
      → count p (collect rounds first items) ≡ 0
      → first ≤ id
      → id < first + rounds
      → items id ≡ some a
      → p a ≡ false
  unfolding collect
  collect-none p zero first id items a h lo hi there = absurd (omega arith)
  collect-none p (suc rounds) first id items a h lo hi there = elim (Option-cases (items first)) [
    | inl missing ↦
        let h' = rw (missing, count) at h in
        elim (ℕ_discrete id first) [
          | yes here ↦ let there' = subst (λ k. items k ≡ some a) here there in cc
          | no other ↦
              collect-none p rounds (first + 1) id items a h' (omega arith) (omega arith) there
        ]
    | inr (b, item) ↦
        let h' = rw (item, count) at h in
        elim (ℕ_discrete id first) [
          | yes here ↦
              let there' = subst (λ k. items k ≡ some a) here there in
              let same : b ≡ a = cc in subst (λ x. p x ≡ false) same (ground arith)
          | no other ↦
              collect-none p rounds (first + 1) id items a (ground arith) (omega arith)
                (omega arith) there
        ]
  ]

  -- No item passes a test that counts none of all.
  pub count-none :
      (p : A → Bool) (s : Store A) (id : ℕ) (a : A)
      → IsValid s
      → count p (all s) ≡ 0
      → get id s ≡ ok a
      → p a ≡ false
  unfolding all
  count-none p s id a valid h got =
      let there = get-some id s a got in
      collect-none p (s.next_id - 1) 1 id s.items a h (at_least id there) (below id there) there
    where
      at_least : (n : ℕ) → s.items n ≡ some a → 1 ≤ n
      at_least zero e = absurd (some-none (sym e ∙ valid.none_at_zero))
      at_least (suc n) e = omega arith

      below : (n : ℕ) → s.items n ≡ some a → n < 1 + (s.next_id - 1)
      below n e = elim (dec_lt n (1 + (s.next_id - 1))) [
        | yes lt ↦ lt
        | no past ↦
            absurd (some-none (sym e ∙ valid.fresh n (omega (arith, valid.ids_from_one, past))))
      ]

  module _ {κ} (P : A → Type κ) where
    collect-All :
        (rounds first : ℕ) (items : ℕ → Option A)
        → ((id : ℕ) (a : A) → items id ≡ some a → P a)
        → All P (collect rounds first items)
    unfolding collect
    collect-All zero first items h = tt
    collect-All (suc rounds) first items h = elim (Option-cases (items first)) [
      | inl missing ↦ rw (missing, All) (collect-All rounds (first + 1) items h)
      | inr (b, item) ↦ rw (item, All) (h first b item, collect-All rounds (first + 1) items h)
    ]

    -- What holds of every item that an id reads as holds of all.
    pub all-All : (s : Store A) → ((id : ℕ) (a : A) → get id s ≡ ok a → P a) → All P (all s)
    unfolding all
    all-All s h =
        collect-All (s.next_id - 1) 1 s.items (λ id a there. h id a (some-get id s a there))
