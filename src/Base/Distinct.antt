-- ===== src/Base/Distinct.antt =====
-- Lists whose elements have distinct keys, under appending and sorting.
use Prim.Native.Nat.{ℕ}
use mathlib.Core.Bool.{Bool}
use mathlib.Core.Path.{sym}
use mathlib.Core.Logic.{◌≢◌}
use mathlib.Core.List.{List, [], ◌∷◌, ◌++◌}
use native.Mathlib.Omega.{arith}
use go_time_recording.Base.Lists.{All, All-append, All-keep, keep}
use go_time_recording.Base.Sort.{insert_by, sort_by, sort_by-All, insert_by-All}

module _ {ℓ} {A : Type ℓ} (key : A → ℕ) where
  abbrev pub IsDistinct : List A → Type 0
  IsDistinct [] = Unit
  IsDistinct (x ∷ xs) = All (λ y. key x ≢ key y) xs × IsDistinct xs

  pub IsDistinct-append_one :
      (xs : List A) (x : A)
      → IsDistinct xs
      → All (λ y. key x ≢ key y) xs
      → IsDistinct (xs ++ x ∷ [])
  IsDistinct-append_one [] x d n = (tt, tt)
  IsDistinct-append_one (y ∷ ys) x d n = (
    All-append (λ z. key y ≢ key z) ys (x ∷ []) d.0 (λ e. n.0 (sym e), tt),
    IsDistinct-append_one ys x d.1 n.1,
  )

  insert_by-IsDistinct :
      (x : A) (xs : List A)
      → IsDistinct xs
      → All (λ y. key x ≢ key y) xs
      → IsDistinct (insert_by key x xs)
  insert_by-IsDistinct x [] d n = (tt, tt)
  insert_by-IsDistinct x (y ∷ ys) d n = ground (
    arith,
    insert_by-IsDistinct x ys d.1 n.1,
    insert_by-All key (λ z. key y ≢ key z) x ys (λ e. n.0 (sym e)) d.0,
  )

  pub sort_by-IsDistinct : (xs : List A) → IsDistinct xs → IsDistinct (sort_by key xs)
  sort_by-IsDistinct [] d = tt
  sort_by-IsDistinct (x ∷ xs) d =
      insert_by-IsDistinct x (sort_by key xs) (sort_by-IsDistinct xs d.1)
        (sort_by-All key (λ y. key x ≢ key y) xs d.0)

  pub keep-IsDistinct : (p : A → Bool) (xs : List A) → IsDistinct xs → IsDistinct (keep p xs)
  keep-IsDistinct p [] d = tt
  keep-IsDistinct p (x ∷ xs) d =
      ground (arith, keep-IsDistinct p xs d.1, All-keep (λ y. key x ≢ key y) p xs d.0)
