-- ===== src/Domain/Models.antt =====
-- modules/ems_core/domain/models.py: configuration, measurements and the records that pass between
-- the controllers. A power is a ℤ in milliwatts (a kW value of the source is the same power), a
-- time a ℕ in microseconds, an energy a ℤ in milliwatt-hours, a state of charge a ℤ in
-- thousandths of a percent, a voltage a ℤ in millivolts.
use ha_ems.Prelude.{ℕ, String, Bool, List, [], ◌∷◌, Option, none, some, ℤ, same, if◌then◌else◌}
use ha_ems.Domain.Profiles.{ForecastProfile}

pub data DeviceKind : Type 0 where
  battery ev_charger relay unrecognized : DeviceKind

pub data SurplusDispatchMode : Type 0 where
  max_absorb fixed unset : SurplusDispatchMode

-- CoreDeviceCapabilitiesConfig; a missing optional value is 0, as its readers take it.
pub record Capabilities : Type 0 where
  pub can_absorb_w : Bool
  pub can_produce_w : Bool
  pub supports_primary_consuming_regulation : Bool
  pub supports_producing_regulation : Bool
  pub min_absorb_w : ℤ
  pub max_absorb_w : ℤ
  pub step_w : ℤ
  pub min_produce_w : ℤ
  pub max_produce_w : ℤ
  pub uses_hard_off_lifecycle : Bool

-- The policy records of the three kinds, with the default of each field that a kind lacks.
pub record DevicePolicyConfig : Type 0 where
  pub priority : ℤ
  pub producing_priority : ℤ
  pub surplus_allowed : Bool
  pub force_on : Bool
  pub surplus_dispatch_mode : SurplusDispatchMode
  pub low_pv_threshold_w : ℤ
  pub hard_off_low_pv_cycles : ℕ
  pub hard_off_release_cycles : ℕ

pub record BatteryGuardConfig : Type 0 where
  pub protect_soc : ℤ
  pub protect_soc_recovery_margin : ℤ
  pub protect_min_cell_voltage_v : ℤ
  pub protect_min_absorb_w : ℤ

pub record Device : Type 0 where
  pub device_id : String
  pub kind : DeviceKind
  pub capabilities : Capabilities
  pub policy : DevicePolicyConfig
  pub guard : BatteryGuardConfig

pub record GlobalConfig : Type 0 where
  pub deadband_w : ℤ
  pub ramp_w : ℤ
  pub strict_limit_w : ℤ
  pub default_sp_w : ℤ
  pub battery_heartbeat_timeout_s : ℕ
  pub nz_battery_floor_default_w : ℤ
  pub nz_battery_floor_ev_active_w : ℤ
  pub primary_consuming_device_ids : List String

pub record CoreConfig : Type 0 where
  pub global_config : GlobalConfig
  pub devices : List Device

pub find_device : String → List Device → Option Device
find_device device_id [] = none
find_device device_id (d ∷ ds) =
    if same d.device_id device_id then some d else find_device device_id ds

-- CoreConfig.device_by_id.
unfoldable pub device_by_id : CoreConfig → String → Option Device
unfolding find_device
device_by_id cfg device_id = find_device device_id cfg.devices

abbrev pub is_battery : DeviceKind → Bool
is_battery DeviceKind.battery = Bool.true
is_battery _ = Bool.false

abbrev pub is_ev_charger : DeviceKind → Bool
is_ev_charger DeviceKind.ev_charger = Bool.true
is_ev_charger _ = Bool.false

pub record DeviceControlContext : Type 0 where
  pub device_id : String
  pub kind : DeviceKind
  pub can_absorb_w : Bool
  pub can_produce_w : Bool
  pub min_absorb_w : ℤ
  pub max_absorb_w : ℤ
  pub min_produce_w : ℤ
  pub max_produce_w : ℤ
  pub step_w : ℤ
  pub supports_primary_consuming_regulation : Bool
  pub supports_producing_regulation : Bool
  pub uses_hard_off_lifecycle : Bool
  pub priority : ℤ
  pub producing_priority : ℤ
  pub current_control_target_w : ℤ

pub data LifecycleMode : Type 0 where
  inactive active hard_off released : LifecycleMode

pub record HardOffLifecycleTransition : Type 0 where
  pub low_pv_cycles : ℕ
  pub hard_off_release_ready_cycles : ℕ
  pub hard_off_active : Bool
  pub activation_allowed : Bool
  pub release_allowed : Bool
  pub recovery_condition : Bool
  pub mode : LifecycleMode

-- The entry of `previous_device_states` that the lifecycle reads.
pub record PreviousDeviceState : Type 0 where
  pub low_pv_cycles : ℕ
  pub hard_off_release_ready_cycles : ℕ
  pub hard_off_active : Bool

pub record NetZeroState : Type 0 where
  pub rpnz_w : ℤ
  pub required_power_consumption_kw : ℤ

pub record HaeoTargets : Type 0 where
  pub effective_forecast : ForecastProfile
  pub configured_forecast : ForecastProfile
  pub fresh : Bool
  pub device_target_kw_by_id : List (String × ℤ)

pub data PlanReason : Type 0 where
  control_not_horizon_by_haeo goal_not_net_zero guard_not_normal_limits forecast_not_configured
        forecast_not_effective zero_forecast no_primary_consuming_candidate tie_keep_previous
        largest_explicit_device_target :
      PlanReason

pub record HaeoNetZeroPlan : Type 0 where
  pub active : Bool
  pub quarter_key : ℕ
  pub primary_consuming_device_id : String
  pub preferred_surplus_device_id : String
  pub device_limits_w : List (String × ℤ)
  pub reason : PlanReason
  pub changed : Bool

pub data PolicyMode : Type 0 where
  power burn restore_min hard_off relay skip : PolicyMode

pub data PolicyReason : Type 0 where
  producer_authority battery_policy battery_policy_inactive ev_policy_inactive ev_policy
        ev_primary_policy primary_producer_feedback_protection ev_lifecycle_hard_off
        ev_surplus_release ev_force_on ev_surplus_policy relay_policy capability_blocked_absorb
        capability_blocked_produce :
      PolicyReason

pub record DevicePolicy : Type 0 where
  pub device_id : String
  pub target_w : ℤ
  pub enabled : Bool
  pub mode : PolicyMode
  pub reason : PolicyReason

pub record SurplusDeviceTarget : Type 0 where
  pub device_id : String
  pub priority : ℤ
  pub rank : ℕ
  pub threshold_w : ℤ
  pub enabled : Bool
  pub force_on : Bool
  pub active : Bool
  pub activation_allowed : Bool
  pub surplus_dispatch_mode : SurplusDispatchMode
  pub releasable_power_w : Option ℤ

pub record SurplusDispatchInput : Type 0 where
  pub policy_active : Bool
  pub freeze_until_ts : Option ℕ
  pub rpc_kw : ℤ
  pub rpnz_w : ℤ
  pub targets : List SurplusDeviceTarget
  pub active_device_ids : List String

pub data ReleaseMode : Type 0 where
  no_release ineligible anchor_rpnz_deadband n_minus_one_incremental n_minus_one_hold : ReleaseMode

pub record SurplusDispatchDecision : Type 0 where
  pub activate : Option String
  pub release : Option String
  pub clear_all : Bool
  pub freeze_until_ts : Option ℕ
  pub release_mode : ReleaseMode
  pub release_power_w : ℕ
  pub release_margin_w : ℕ
  pub release_threshold_w : ℕ
  pub excess_consumption_w : ℕ
