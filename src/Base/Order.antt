-- ===== src/Base/Order.antt =====
-- `sort.SliceStable` by a Boolean order: an element is put in front of the first that is not less.
use mathlib.Core.Bool.{Bool}
use mathlib.Core.List.{List, [], ◌∷◌}
use native.Mathlib.Omega.{arith}
use go_time_recording.Base.Tests.{if◌then◌else◌}
use go_time_recording.Base.Lists.{length, All}
use mathlib.Core.Path.{◌≡◌, refl, ap, ◌∙◌}
use Prim.Native.Nat.{suc}

module _ {ℓ} {A : Type ℓ} (less : A → A → Bool) where
  abbrev pub insert_less : A → List A → List A
  insert_less x [] = x ∷ []
  insert_less x (y ∷ ys) = if less y x then y ∷ insert_less x ys else x ∷ y ∷ ys

  abbrev pub sort_less : List A → List A
  sort_less [] = []
  sort_less (x ∷ xs) = insert_less x (sort_less xs)

  length-insert_less : (x : A) (xs : List A) → length (insert_less x xs) ≡ suc (length xs)
  length-insert_less x [] = refl
  length-insert_less x (y ∷ ys) = ground (arith, length-insert_less x ys)

  pub length-sort_less : (xs : List A) → length (sort_less xs) ≡ length xs
  length-sort_less [] = refl
  length-sort_less (x ∷ xs) = length-insert_less x (sort_less xs) ∙ ap suc (length-sort_less xs)

  module _ {κ} (P : A → Type κ) where
    insert_less-All : (x : A) (xs : List A) → P x → All P xs → All P (insert_less x xs)
    insert_less-All x [] h k = (h, tt)
    insert_less-All x (y ∷ ys) h k = ground (arith, insert_less-All x ys h k.1)

    pub sort_less-All : (xs : List A) → All P xs → All P (sort_less xs)
    sort_less-All [] h = tt
    sort_less-All (x ∷ xs) h = insert_less-All x (sort_less xs) h.0 (sort_less-All xs h.1)
