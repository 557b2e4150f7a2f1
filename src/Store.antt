-- ===== src/Store.antt =====
-- The bookkeeping behind the in-memory repositories: `store` of
-- internal/infrastructure/persistence/memory/memory.go. Its map is a function; what callers get
-- are copies, so no aliasing reaches what is stored. Each operation holds the lock throughout.
pub mod Laws
pub mod Members
mod Tests
use go_time_recording.Base.{
  ℕ, zero, suc, ◌+◌, ◌-◌, ◌*◌, ◌%◌, ◌^◌, Option, none, some, List, [], ◌∷◌, ◌++◌, String, ◌==◌,
  if◌then◌else◌,
}
use go_time_recording.Errors.{Error, Result, ok, err}

-- `uint` has 64 bits.
abbrev pub uint_mod : ℕ
uint_mod = 18446744073709551616

pub record Store {ℓ} (A : Type ℓ) : Type ℓ where
  pub items : ℕ → Option A
  pub next_id : ℕ
  pub entity : String

module _ {ℓ} {A : Type ℓ} where
  abbrev pub write : ℕ → Option A → (ℕ → Option A) → ℕ → Option A
  write id item items n = if n == id then item else items n

  unfoldable pub new_store : String → Store A
  new_store entity = record { items = λ n. none; next_id = 1; entity = entity }

  unfoldable pub add : A → (A → ℕ → A) → Store A → A × Store A
  add item set_id s =
      let stored = set_id item s.next_id in
      (
        stored,
        record s {
          items = write s.next_id (some stored) s.items;
          next_id = (s.next_id + 1) % uint_mod;
        },
      )

  abbrev pub found : Error → Option A → Result A
  found e none = err e
  found e (some item) = ok item

  unfoldable pub get : ℕ → Store A → Result A
  get id s = found (Error.not_found s.entity id) (s.items id)

  -- The loop of `all`: `rounds` ids from `id` on.
  unfoldable pub collect : ℕ → ℕ → (ℕ → Option A) → List A
  collect zero id items = []
  collect (suc rounds) id items =
      let rest = collect rounds (id + 1) items in
      elim (items id) [ none ↦ rest | some item ↦ item ∷ rest ]

  unfoldable pub all : Store A → List A
  unfolding collect
  all s = collect (s.next_id - 1) 1 s.items

  unfoldable pub update : ℕ → A → Store A → Result (A × Store A)
  update id item s = elim (s.items id) [
    | none ↦ err (Error.not_found s.entity id)
    | some old ↦ ok (item, record s { items = write id (some item) s.items })
  ]

  unfoldable pub delete : ℕ → Store A → Result (Store A)
  delete id s = elim (s.items id) [
    | none ↦ err (Error.not_found s.entity id)
    | some old ↦ ok (record s { items = write id none s.items })
  ]
