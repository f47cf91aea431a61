-- ===== src/Domain/Profiles.antt =====
-- modules/ems_core/domain/models.py: the profile enumerations. The source keeps them as texts, so
-- each type has a constructor `unrecognized` for every other text.
use ha_ems.Prelude.{Bool, true, false}

pub data ControlProfile : Type 0 where
  manual manual_safe automatic horizon_by_haeo unrecognized : ControlProfile

pub data GoalProfile : Type 0 where
  net_zero max_export cheap_grid_charge unrecognized : GoalProfile

pub data ForecastProfile : Type 0 where
  none haeo unrecognized : ForecastProfile

pub data GuardProfile : Type 0 where
  normal_limits strict_limits battery_protect degraded unrecognized : GuardProfile

pub data DominantLimitation : Type 0 where
  system_degraded battery_soc_limit user_manual_override manual_safe_active strict_power_limits
        forecast_fallback_local optimization_active :
      DominantLimitation

pub record Profiles : Type 0 where
  pub control : ControlProfile
  pub goal : GoalProfile
  pub forecast : ForecastProfile
  pub guard : GuardProfile

abbrev pub is_manual : ControlProfile → Bool
is_manual ControlProfile.manual = true
is_manual _ = false

abbrev pub is_manual_safe : ControlProfile → Bool
is_manual_safe ControlProfile.manual_safe = true
is_manual_safe _ = false

abbrev pub is_automatic : ControlProfile → Bool
is_automatic ControlProfile.automatic = true
is_automatic _ = false

abbrev pub is_horizon_by_haeo : ControlProfile → Bool
is_horizon_by_haeo ControlProfile.horizon_by_haeo = true
is_horizon_by_haeo _ = false

abbrev pub is_net_zero : GoalProfile → Bool
is_net_zero GoalProfile.net_zero = true
is_net_zero _ = false

abbrev pub is_max_export : GoalProfile → Bool
is_max_export GoalProfile.max_export = true
is_max_export _ = false

abbrev pub is_cheap_grid_charge : GoalProfile → Bool
is_cheap_grid_charge GoalProfile.cheap_grid_charge = true
is_cheap_grid_charge _ = false

abbrev pub is_haeo : ForecastProfile → Bool
is_haeo ForecastProfile.haeo = true
is_haeo _ = false

abbrev pub is_no_forecast : ForecastProfile → Bool
is_no_forecast ForecastProfile.none = true
is_no_forecast _ = false

abbrev pub is_normal_limits : GuardProfile → Bool
is_normal_limits GuardProfile.normal_limits = true
is_normal_limits _ = false

abbrev pub is_strict_limits : GuardProfile → Bool
is_strict_limits GuardProfile.strict_limits = true
is_strict_limits _ = false

abbrev pub is_battery_protect : GuardProfile → Bool
is_battery_protect GuardProfile.battery_protect = true
is_battery_protect _ = false

abbrev pub is_degraded : GuardProfile → Bool
is_degraded GuardProfile.degraded = true
is_degraded _ = false
