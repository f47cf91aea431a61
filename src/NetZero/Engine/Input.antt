-- ===== src/NetZero/Engine/Input.antt =====
-- modules/ems_core/net_zero/engine.py: the arguments of compute_net_zero_engine_outputs, and what it
-- reads from them first.
use ha_ems.Prelude.{
  ℕ, ◌/◌, Bool, false, Option, none, some, List, [], ◌∷◌, String, remove_id, append_new_ids, ℤ, pos,
  if◌then◌else◌,
}
use ha_ems.Domain.Profiles.{Profiles, ForecastProfile}
use ha_ems.Domain.Models.{
  CoreConfig, Device, DeviceControlContext, HaeoTargets, HaeoNetZeroPlan, NetZeroState,
  PreviousDeviceState, device_by_id, is_battery, is_ev_charger,
}
use ha_ems.Domain.EvPower.{EvCharger, ev_current_a_to_power_w}
use ha_ems.Surplus.Contexts.{RuntimeState}
use ha_ems.NetZero.Forecast.{configured_forecast, effective_forecast}
use ha_ems.NetZero.Primary.{ordered_primary_consuming_device_ids}
use ha_ems.NetZero.Engine.Devices.{configured_device_contexts, producer_device_contexts}

-- The arguments of compute_net_zero_engine_outputs, with the measurements that it reads.
pub record EngineInput : Type 0 where
  pub profiles : Profiles
  pub cfg : CoreConfig
  pub grid_power_w : ℤ
  pub battery_setpoint_of : String → ℤ
  pub ev_current_of : String → ℤ
  pub charger_of : String → EvCharger
  pub haeo : HaeoTargets
  pub nz : NetZeroState
  pub now_ts : ℕ
  pub freeze_until_ts : Option ℕ
  pub surplus_freeze_s : ℕ
  pub pv_power_kw : Option ℤ
  pub runtime_state_of : String → RuntimeState
  pub previous_of : String → PreviousDeviceState
  pub previous_force_on_device_ids : List String
  pub haeo_nz_plan : Option HaeoNetZeroPlan
  pub current_target_of : String → Option ℤ
  pub active_surplus_device_ids : Option (List String)

-- `current_power_by_id`: the target that is given, or the state of the device.
unfoldable pub current_power_of : EngineInput → Device → ℤ
current_power_of i d = elim (i.current_target_of d.device_id) [
  | some power ↦ power
  | none ↦
      if is_battery d.kind
      then i.battery_setpoint_of d.device_id
      else if is_ev_charger d.kind
      then pos
          (ev_current_a_to_power_w (i.ev_current_of d.device_id) (i.charger_of d.device_id) / 1000)
      else pos 0
]

unfoldable pub current_power_by_id : EngineInput → String → ℤ
unfolding current_power_of
current_power_by_id i device_id = elim (device_by_id i.cfg device_id) [
  | none ↦ elim (i.current_target_of device_id) [ none ↦ pos 0 | some power ↦ power ]
  | some d ↦ current_power_of i d
]

abbrev pub plan_active : Option HaeoNetZeroPlan → Bool
plan_active none = false
plan_active (some plan) = plan.active

abbrev pub plan_changed : Option HaeoNetZeroPlan → Bool
plan_changed none = false
plan_changed (some plan) = plan.changed

abbrev pub forecast_in_use : EngineInput → ForecastProfile
forecast_in_use i =
    effective_forecast (configured_forecast i.profiles.control i.profiles.forecast) i.haeo.fresh

-- `normalized_haeo`.
abbrev pub normalized_haeo : EngineInput → HaeoTargets
normalized_haeo i = record i.haeo {
  effective_forecast = forecast_in_use i;
  configured_forecast = configured_forecast i.profiles.control i.profiles.forecast;
}

abbrev pub fallback_order : EngineInput → List String
fallback_order i =
    ordered_primary_consuming_device_ids i.cfg.global_config.primary_consuming_device_ids
      i.haeo_nz_plan

abbrev pub device_contexts : EngineInput → List DeviceControlContext
device_contexts i = configured_device_contexts (current_power_of i) i.cfg.devices

abbrev pub producers : EngineInput → List DeviceControlContext
producers i = producer_device_contexts (device_contexts i)

unfoldable pub active_runtime_ids : EngineInput → List Device → List String
active_runtime_ids i [] = []
active_runtime_ids i (d ∷ ds) =
    let rest = active_runtime_ids i ds in
    if (i.runtime_state_of d.device_id).active then d.device_id ∷ rest else rest

-- `active_device_ids_ordered`: the persisted list without empty and repeated identifiers, or else
-- the devices that the runtime calls active.
unfoldable pub active_device_ids : EngineInput → List String
unfolding active_runtime_ids
active_device_ids i = elim i.active_surplus_device_ids [
  | some ids ↦ remove_id "" (append_new_ids [] ids)
  | none ↦ append_new_ids [] (active_runtime_ids i i.cfg.devices)
]
