-- ===== src/Base/Keyed.antt =====
-- What the in-memory repositories of schedules, absences and entitlements have in common: a list of
-- records, at most one for each owner and key.
pub mod Laws
pub mod Own
pub mod Runs
use Prim.Native.Nat.{ℕ}
use mathlib.Core.Bool.{Bool, true, false, ◌&&◌}
use mathlib.Core.Path.{◌≡◌}
use mathlib.Core.Option.{Option, none, some}
use mathlib.Core.List.{List, [], ◌∷◌}
use go_time_recording.Base.Tests.{◌==◌, if◌then◌else◌}
use go_time_recording.Base.Lists.{keep}
use go_time_recording.Base.Sort.{sort_by}

module _ {ℓ} {A : Type ℓ} (owner key : A → ℕ) where
  abbrev pub is_at : ℕ → ℕ → A → Bool
  is_at u k x = owner x == u && key x == k

  -- The first record of an owner and key is replaced in its place; else the record is appended.
  unfoldable pub put : A → List A → List A
  put x [] = x ∷ []
  put x (y ∷ ys) = let rest = put x ys in if is_at (owner x) (key x) y then x ∷ ys else y ∷ rest

  -- The first record of an owner and key is deleted, and whether there was one.
  unfoldable pub take_out : ℕ → ℕ → List A → Bool × List A
  take_out u k [] = (false, [])
  take_out u k (y ∷ ys) =
      let rest = take_out u k ys in if is_at u k y then (true, ys) else (rest.0, y ∷ rest.1)

  -- An owner's records by key.
  unfoldable pub own : ℕ → List A → List A
  own u xs = sort_by key (keep (λ x. owner x == u) xs)

  -- The record of an owner and key.
  abbrev pub find : ℕ → ℕ → List A → Option A
  find u k [] = none
  find u k (x ∷ xs) = if is_at u k x then some x else find u k xs

  -- No two records have both the owner and the key in common.
  abbrev pub IsKeyed : List A → Type ℓ
  IsKeyed [] = Unit
  IsKeyed (x ∷ xs) = (find (owner x) (key x) xs ≡ none) × IsKeyed xs
