-- ===== src/Base/Keyed/Own.antt =====
-- An owner's records in order of their keys.
use Prim.Native.Nat.{ℕ}
use mathlib.Core.Bool.{Bool, true}
use mathlib.Core.Path.{◌≡◌, refl, ◌∙◌}
use mathlib.Core.Logic.{◌≢◌}
use mathlib.Core.Option.{none}
use mathlib.Core.List.{List, [], ◌∷◌}
use native.Mathlib.Omega.{arith}
use go_time_recording.Base.Tests.{◌==◌, ==_iff, if◌then◌else◌}
use go_time_recording.Base.Lists.{keep, All}
use go_time_recording.Base.Sort.{sort_by, insert_by, sort_by-All, IsSorted, sort_by-IsSorted}
use go_time_recording.Base.Distinct.{IsDistinct, sort_by-IsDistinct}
use go_time_recording.Base.Keyed.{own, find, IsKeyed}

module _ {ℓ} {A : Type ℓ} (owner key : A → ℕ) where
  find-insert_by :
      (u k : ℕ) (x : A) (xs : List A)
      → All (λ y. key x ≢ key y) xs
      → find owner key u k (insert_by key x xs) ≡ find owner key u k (x ∷ xs)
  find-insert_by u k x [] h = refl
  find-insert_by u k x (y ∷ ys) h = ground (arith, find-insert_by u k x ys h.1)

  find-sort_by :
      (u k : ℕ) (xs : List A)
      → IsDistinct key xs
      → find owner key u k (sort_by key xs) ≡ find owner key u k xs
  find-sort_by u k [] d = refl
  find-sort_by u k (x ∷ xs) d = ground (
    arith,
    find-insert_by u k x (sort_by key xs) (sort_by-All key (λ y. key x ≢ key y) xs d.0),
    find-sort_by u k xs d.1,
  )

  module _ (q : ℕ → ℕ → Bool) where
    -- The records that a test of owner and key lets through.
    abbrev pub kept_where : List A → List A
    kept_where xs = keep (λ x. q (owner x) (key x)) xs

    find-keep :
        (u k : ℕ) (xs : List A)
        → find owner key u k (kept_where xs) ≡ (if q u k then find owner key u k xs else none)
    find-keep u k [] = ground arith
    find-keep u k (x ∷ xs) = ground (arith, find-keep u k xs)

    module _ (u : ℕ) (one_owner : (v k : ℕ) → q v k ≡ true → v ≡ u) where
      -- Of one owner, no other record has the key of one that is not found.
      keep-fresh :
          (k : ℕ) (xs : List A)
          → find owner key u k xs ≡ none
          → All (λ y. k ≢ key y) (kept_where xs)
      keep-fresh k [] h = tt
      keep-fresh k (x ∷ xs) h = ground (arith, keep-fresh k xs, one_owner (owner x) (key x))

      keep-IsDistinct : (xs : List A) → IsKeyed owner key xs → IsDistinct key (kept_where xs)
      keep-IsDistinct [] h = tt
      keep-IsDistinct (x ∷ xs) h =
          ground (arith, keep-IsDistinct xs h.1, keep-fresh (key x) xs, one_owner (owner x) (key x))

      pub where-find :
          (k : ℕ) (xs : List A)
          → IsKeyed owner key xs
          → find owner key u k (sort_by key (kept_where xs))
            ≡ (if q u k then find owner key u k xs else none)
      where-find k xs h = find-sort_by u k (kept_where xs) (keep-IsDistinct xs h) ∙ find-keep u k xs

      pub where-IsDistinct :
          (xs : List A) → IsKeyed owner key xs → IsDistinct key (sort_by key (kept_where xs))
      where-IsDistinct xs h = sort_by-IsDistinct key (kept_where xs) (keep-IsDistinct xs h)

  -- Each of an owner's records once, in order, and found where the list has it.
  pub own-find :
      (u k : ℕ) (xs : List A)
      → IsKeyed owner key xs
      → find owner key u k (own owner key u xs) ≡ find owner key u k xs
  unfolding own
  own-find u k xs h = where-find (λ v l. v == u) u (λ v l e. (==_iff v u).0 e) k xs h ∙ ground arith

  pub own-IsSorted : (u : ℕ) (xs : List A) → IsSorted key (own owner key u xs)
  unfolding own
  own-IsSorted u xs = sort_by-IsSorted key (keep (λ x. owner x == u) xs)

  pub own-IsDistinct :
      (u : ℕ) (xs : List A) → IsKeyed owner key xs → IsDistinct key (own owner key u xs)
  unfolding own
  own-IsDistinct u xs h = where-IsDistinct (λ v l. v == u) u (λ v l e. (==_iff v u).0 e) xs h

  keep-owner : (u : ℕ) (xs : List A) → All (λ x. owner x ≡ u) (keep (λ x. owner x == u) xs)
  keep-owner u [] = tt
  keep-owner u (x ∷ xs) = ground (arith, keep-owner u xs)

  pub own-owner : (u : ℕ) (xs : List A) → All (λ x. owner x ≡ u) (own owner key u xs)
  unfolding own
  own-owner u xs =
      sort_by-All key (λ x. owner x ≡ u) (keep (λ x. owner x == u) xs) (keep-owner u xs)
