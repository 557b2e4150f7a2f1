-- ===== src/User.antt =====
-- An account, with the settings that the rules about somebody's own time read: `User` of
-- internal/domain/model/user_model.go. `H` is the type of hours.
use go_time_recording.Base.{ℕ, Bool, Option, none, some, String, if◌then◌else◌}
use go_time_recording.Calendar.{Day}
use go_time_recording.Float.{Float64}

-- Of a user's fields those that the modelled parts read or write.
pub record User (H : Type 0) : Type 0 where
  pub id : ℕ
  pub name : String
  pub role_id : ℕ
  pub is_system : Bool
  pub daily_target_hours : H
  pub max_daily_hours : H
  pub holiday_place : String
  pub every_day_counts_from : Option Day
  pub balance_upper_limit : Option H
  pub balance_lower_limit : Option H
  pub skip_unbooked_reminder : Bool
  pub timer_alert_hours : Option ℕ

abbrev pub balance_above : String
balance_above = "above"

abbrev pub balance_below : String
balance_below = "below"

unfoldable pub effective_timer_alert_hours : {H : Type 0} → User H → ℕ
effective_timer_alert_hours u = elim u.timer_alert_hours [ none ↦ 10 | some hours ↦ hours ]

module _ (F : Float64) where
  open F use {Number, zero_hours, literal, lt, le}

  unfoldable pub effective_daily_target : User Number → Number
  effective_daily_target u =
      if le u.daily_target_hours zero_hours then literal 8 0 else u.daily_target_hours

  abbrev pub passes_upper : Option Number → Number → Bool
  passes_upper none balance = Bool.false
  passes_upper (some limit) balance = lt limit balance

  abbrev pub passes_lower : Option Number → Number → Bool
  passes_lower none balance = Bool.false
  passes_lower (some limit) balance = lt balance limit

  unfoldable pub balance_outside : User Number → Number → String
  balance_outside u balance =
      if passes_upper u.balance_upper_limit balance
      then balance_above
      else if passes_lower u.balance_lower_limit balance
      then balance_below
      else ""
