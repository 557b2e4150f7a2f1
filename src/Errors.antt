-- ===== src/Errors.antt =====
-- The outcome of an operation: internal/support/apperror/apperror.go. An error keeps its kind and
-- what tells two errors of a kind apart for a client: the fields, the code, or the entity and its id.
-- Messages are left out; `internal` is an error of a library, which the source passes on.
use go_time_recording.Base.{
  ℕ, ◌≡◌, ◌⊎◌, inl, inr, refl, arith, Bool, false, if◌then◌else◌, List, String,
}

pub data Error : Type 0 where
  not_found : String → ℕ → Error
  invalid_fields : List String → Error
  invalid : String → Error
  conflict : String → Error
  internal : Error

pub data Result {ℓ} (A : Type ℓ) : Type ℓ where
  ok : A → Result A
  err : Error → Result A

-- What follows an operation runs on what it returned, and not at all after an error.
infixl 5 ◌>>=◌ ◌>>◌
abbrev pub ◌>>=◌ {ℓ κ} : {A : Type ℓ} {B : Type κ} → Result A → (A → Result B) → Result B
r >>= next = elim r [ ok value ↦ next value | err e ↦ err e ]

abbrev pub ◌>>◌ {ℓ} : {B : Type ℓ} → Result (Unit {0}) → Result B → Result B
check >> next = check >>= λ passed. next

-- `if refused { return e }`.
abbrev pub refuse_if : Bool → Error → Result (Unit {0})
refuse_if refused e = if refused then err e else ok tt

-- What an operation that succeeded has gone through, step by step.
module _ {ℓ} {B : Type ℓ} {end : B} where
  pub bind-ok {κ} :
      {A : Type κ} (r : Result A) (next : A → Result B)
      → (r >>= next) ≡ ok end
      → (value : A) × (r ≡ ok value) × (next value ≡ ok end)
  bind-ok (err e) next done = cc
  bind-ok (ok value) next done = (value, refl, done)

  pub check-ok :
      (check : Result (Unit {0})) (next : Result B)
      → (check >> next) ≡ ok end
      → (check ≡ ok tt) × (next ≡ ok end)
  check-ok check next done =
      let (value, passed, rest) = bind-ok check (λ v. next) done in (passed, rest)

  pub refuse_if-ok :
      (refused : Bool) (e : Error) (next : Result B)
      → (refuse_if refused e >> next) ≡ ok end
      → (refused ≡ false) × (next ≡ ok end)
  refuse_if-ok refused e next done = ground arith

pub Result-cases {ℓ} :
    {A : Type ℓ} (r : Result A) → ((value : A) × (r ≡ ok value)) ⊎ ((e : Error) × (r ≡ err e))
Result-cases (ok value) = inl (value, refl)
Result-cases (err e) = inr (e, refl)

pub ok_injective {ℓ} : {A : Type ℓ} {x y : A} → ok x ≡ ok y → x ≡ y
ok_injective same = cc
