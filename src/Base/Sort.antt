-- ===== src/Base/Sort.antt =====
-- `slices.SortFunc` by a numeric key: insertion of each element behind those with a smaller or
-- equal key. Every caller sorts by a key that is distinct for distinct elements or sorts stably.
use Prim.Native.Nat.{ℕ, ◌≤◌}
use mathlib.Core.List.{List, [], ◌∷◌}
use native.Mathlib.Omega.{arith}
use go_time_recording.Base.Tests.{ltb, if◌then◌else◌}
use go_time_recording.Base.Lists.{All}

module _ {ℓ} {A : Type ℓ} (key : A → ℕ) where
  abbrev pub insert_by : A → List A → List A
  insert_by x [] = x ∷ []
  insert_by x (y ∷ ys) = if ltb (key y) (key x) then y ∷ insert_by x ys else x ∷ y ∷ ys

  abbrev pub sort_by : List A → List A
  sort_by [] = []
  sort_by (x ∷ xs) = insert_by x (sort_by xs)

  -- Each element's key is at most the key of every later one.
  abbrev pub IsSorted : List A → Type 0
  IsSorted [] = Unit
  IsSorted (x ∷ xs) = All (λ y. key x ≤ key y) xs × IsSorted xs

  insert_by-All-le :
      (b : ℕ) (x : A) (xs : List A)
      → b ≤ key x
      → All (λ y. b ≤ key y) xs
      → All (λ y. b ≤ key y) (insert_by x xs)
  insert_by-All-le b x [] h k = (h, tt)
  insert_by-All-le b x (y ∷ ys) h k = ground (arith, insert_by-All-le b x ys h k.1)

  All-le_trans : (a b : ℕ) (xs : List A) → a ≤ b → All (λ y. b ≤ key y) xs → All (λ y. a ≤ key y) xs
  All-le_trans a b [] h k = tt
  All-le_trans a b (x ∷ xs) h k = (omega arith, All-le_trans a b xs h k.1)

  insert_by-IsSorted : (x : A) (xs : List A) → IsSorted xs → IsSorted (insert_by x xs)
  insert_by-IsSorted x [] h = (tt, tt)
  insert_by-IsSorted x (y ∷ ys) h = ground (
    arith,
    insert_by-IsSorted x ys h.1,
    insert_by-All-le (key y) x ys,
    All-le_trans (key x) (key y) ys,
  )

  pub sort_by-IsSorted : (xs : List A) → IsSorted (sort_by xs)
  sort_by-IsSorted [] = tt
  sort_by-IsSorted (x ∷ xs) = insert_by-IsSorted x (sort_by xs) (sort_by-IsSorted xs)

  module _ {κ} (P : A → Type κ) where
    pub insert_by-All : (x : A) (xs : List A) → P x → All P xs → All P (insert_by x xs)
    insert_by-All x [] h k = (h, tt)
    insert_by-All x (y ∷ ys) h k = ground (arith, insert_by-All x ys h k.1)

    -- Sorting keeps what holds of every element.
    pub sort_by-All : (xs : List A) → All P xs → All P (sort_by xs)
    sort_by-All [] h = tt
    sort_by-All (x ∷ xs) h = insert_by-All x (sort_by xs) h.0 (sort_by-All xs h.1)
