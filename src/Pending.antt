-- ===== src/Pending.antt =====
-- The first halves of ceremonies waiting for their second: `pendingStore` of
-- internal/application/v1/service/pending.go. Times are nanoseconds from Go's zero time, which is what
-- a store that was never swept has as its last sweep. The lock is held throughout each operation.
mod Tests
pub mod Refines
use go_time_recording.Base.{
  ℕ, ◌+◌, ◌-◌, Bool, true, false, Option, none, some, List, [], ◌∷◌, String, ltb, leb, str_eq,
  if◌then◌else◌,
}

abbrev pub pending_sweep_interval : ℕ
pending_sweep_interval = 60000000000

pub record Waiting (T : Type 0) : Type 0 where
  pub value : T
  pub expires : ℕ

pub record PendingStore (T : Type 0) : Type 0 where
  pub lifetime : ℕ
  pub by_token : String → Option (Waiting T)
  pub last_sweep : ℕ

module _ {T : Type 0} where
  -- What the loop over the map leaves under a key.
  abbrev pub unless_expired : ℕ → Option (Waiting T) → Option (Waiting T)
  unless_expired now none = none
  unless_expired now (some w) = if ltb w.expires now then none else some w

  abbrev pub write :
      String → Option (Waiting T) → (String → Option (Waiting T)) → String → Option (Waiting T)
  write token w waiting key = if str_eq key token then w else waiting key

  unfoldable pub put : String → T → ℕ → PendingStore T → PendingStore T
  put token value now s =
      let due = leb pending_sweep_interval (now - s.last_sweep) in
      let swept = if due then (λ key. unless_expired now (s.by_token key)) else s.by_token in
      record s {
        last_sweep = if due then now else s.last_sweep;
        by_token = write token (some (record { value = value; expires = now + s.lifetime })) swept;
      }

  abbrev pub value_at : ℕ → Option (Waiting T) → Option T
  value_at now none = none
  value_at now (some w) = if ltb w.expires now then none else some w.value

  unfoldable pub take : String → ℕ → PendingStore T → Option T × PendingStore T
  take token now s =
      (value_at now (s.by_token token), record s { by_token = write token none s.by_token })

  abbrev pub new_pending : ℕ → PendingStore T
  new_pending lifetime = record { lifetime = lifetime; by_token = λ key. none; last_sweep = 0 }
