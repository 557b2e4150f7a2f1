-- ===== src/Base/Keyed/Laws.antt =====
-- Lists of records with owner and key are finite maps.
use Prim.Native.Nat.{ℕ}
use mathlib.Core.Bool.{Bool, true, false, ◌&&◌}
use mathlib.Core.Path.{◌≡◌, refl}
use mathlib.Core.Option.{Option, none, some}
use mathlib.Core.List.{List, [], ◌∷◌}
use native.Mathlib.Omega.{arith}
use go_time_recording.Base.Tests.{◌==◌, if◌then◌else◌}
use go_time_recording.Base.Keyed.{put, take_out, find, IsKeyed}

abbrev pub is_there {ℓ} : {A : Type ℓ} → Option A → Bool
is_there none = false
is_there (some a) = true

module _ {ℓ} {A : Type ℓ} (owner key : A → ℕ) where
  pub find-put :
      (x : A) (xs : List A) (u k : ℕ)
      → find owner key u k (put owner key x xs)
        ≡ (if owner x == u && key x == k then some x else find owner key u k xs)
  unfolding put
  find-put x [] u k = refl
  find-put x (y ∷ ys) u k = ground (arith, find-put x ys u k)

  pub put-IsKeyed :
      (x : A) (xs : List A) → IsKeyed owner key xs → IsKeyed owner key (put owner key x xs)
  unfolding put
  put-IsKeyed x [] h = (refl, tt)
  put-IsKeyed x (y ∷ ys) h = ground (arith, put-IsKeyed x ys h.1, find-put x ys (owner y) (key y))

  pub find-take_out :
      (u k : ℕ) (xs : List A) (v l : ℕ)
      → IsKeyed owner key xs
      → find owner key v l (take_out owner key u k xs).1
        ≡ (if u == v && k == l then none else find owner key v l xs)
  unfolding take_out
  find-take_out u k [] v l h = ground arith
  find-take_out u k (y ∷ ys) v l h = ground (arith, find-take_out u k ys v l h.1)

  pub take_out-found :
      (u k : ℕ) (xs : List A) → (take_out owner key u k xs).0 ≡ is_there (find owner key u k xs)
  unfolding take_out
  take_out-found u k [] = refl
  take_out-found u k (y ∷ ys) = ground (arith, take_out-found u k ys)

  pub take_out-IsKeyed :
      (u k : ℕ) (xs : List A)
      → IsKeyed owner key xs
      → IsKeyed owner key (take_out owner key u k xs).1
  unfolding take_out
  take_out-IsKeyed u k [] h = tt
  take_out-IsKeyed u k (y ∷ ys) h =
      ground (arith, take_out-IsKeyed u k ys h.1, find-take_out u k ys (owner y) (key y) h.1)
