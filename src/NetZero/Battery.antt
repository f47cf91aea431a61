-- ===== src/NetZero/Battery.antt =====
-- modules/ems_core/net_zero/engine.py: _battery_target_and_authority, the battery's target before
-- the producer pool takes over negative targets.
pub mod Guarded
use ha_ems.Prelude.{
  ℕ, Bool, true, false, ◌&&◌, ◌||◌, not, Option, none, some, String, ℤ, pos, neg, pos_part, ltb_ℤ,
  leb_ℤ, min_ℤ, max_ℤ, round_to, if◌then◌else◌,
}
use ha_ems.Domain.Profiles.{
  Profiles, is_manual, is_manual_safe, is_net_zero, is_max_export, is_cheap_grid_charge, is_haeo,
  is_degraded, is_battery_protect, is_strict_limits, is_normal_limits,
}
use ha_ems.Domain.Models.{
  GlobalConfig, Device, HaeoTargets, HaeoNetZeroPlan, NetZeroState, SurplusDeviceTarget,
}
use ha_ems.NetZero.Feedback.{candidate_sp_net_zero, trunc_w}
use ha_ems.NetZero.Forecast.{limit_of}

pub data FloorReason : Type 0 where
  not_applicable ev_active_floor_override primary_consuming_active_floor_override
        primary_consuming_authority_hold no_effective_primary_hold activation_gate_hold :
      FloorReason

-- The arguments; `primary_is_ev` is the kind of the primary's context.
pub record BatteryInput : Type 0 where
  pub profiles : Profiles
  pub cfg : GlobalConfig
  pub battery : Device
  pub current_sp_w : ℤ
  pub grid_power_w : ℤ
  pub haeo : HaeoTargets
  pub nz : NetZeroState
  pub primary_is_ev : Bool
  pub primary_active : Bool
  pub primary_target_w : ℤ
  pub separate_primary_regulation : Bool
  pub is_effective_primary : Bool
  pub no_effective_primary_regulation : Bool
  pub haeo_nz_plan : Option HaeoNetZeroPlan
  pub battery_surplus_target : Option SurplusDeviceTarget

pub record BatteryTarget : Type 0 where
  pub target_w : ℤ
  pub write_enabled : Bool
  pub battery_min_floor_w : Option ℤ
  pub battery_min_floor_reason : FloorReason

-- A target under formation, with the reason that goes with it.
pub record Draft : Type 0 where
  pub raw : ℤ
  pub reason : FloorReason

abbrev pub surplus_active : Option SurplusDeviceTarget → Bool
surplus_active none = false
surplus_active (some t) = t.active

abbrev pub configured_activation_w : Option SurplusDeviceTarget → ℤ
configured_activation_w none = pos 0
configured_activation_w (some t) = t.threshold_w

abbrev pub is_some_target : Option SurplusDeviceTarget → Bool
is_some_target none = false
is_some_target (some _) = true

abbrev pub min_charge_floor_w : BatteryInput → ℤ
min_charge_floor_w i =
    if i.separate_primary_regulation
    then i.cfg.nz_battery_floor_ev_active_w
    else i.cfg.nz_battery_floor_default_w

abbrev pub floor_reason : BatteryInput → FloorReason
floor_reason i =
    if not i.separate_primary_regulation
    then not_applicable
    else if i.primary_is_ev
    then ev_active_floor_override
    else primary_consuming_active_floor_override

-- `candidate_sp_net_zero`, replaced by the primary's target where the battery is the primary.
unfoldable pub formed_target : BatteryInput → ℤ
formed_target i =
    if i.is_effective_primary
    then round_to 1000 (max_ℤ i.primary_target_w (pos 0))
    else candidate_sp_net_zero i.nz.rpnz_w i.grid_power_w i.current_sp_w i.cfg.deadband_w
        i.cfg.ramp_w i.battery.capabilities.max_absorb_w (min_charge_floor_w i)

-- `min(raw, max(current_sp_w, min_charge_floor_w))`, with `reason` where that lowers the target.
unfoldable pub hold_below : Bool → FloorReason → BatteryInput → Draft → Draft
hold_below applies reason i d =
    let cap = max_ℤ i.current_sp_w (min_charge_floor_w i) in
    if applies && ltb_ℤ cap d.raw then record { raw = cap; reason = reason } else d

unfoldable pub not_negative : Draft → Draft
not_negative d = if ltb_ℤ d.raw (pos 0) then record d { raw = pos 0 } else d

-- An active battery surplus takes its configured power.
unfoldable pub surplus_target : BatteryInput → Draft → Draft
surplus_target i d =
    if i.separate_primary_regulation
      && surplus_active i.battery_surplus_target
      && leb_ℤ (pos 0) i.nz.rpnz_w
    then record d {
      raw = round_to 1000 (
          min_ℤ (max_ℤ (configured_activation_w i.battery_surplus_target) (pos 0))
            i.battery.capabilities.max_absorb_w);
    }
    else d

-- Below its activation threshold an inactive surplus battery does not rise.
unfoldable pub activation_gate : BatteryInput → Draft → Draft
activation_gate i d =
    let activation = configured_activation_w i.battery_surplus_target in
    if not i.is_effective_primary
      && is_some_target i.battery_surplus_target
      && ltb_ℤ (pos 0) activation
      && not (surplus_active i.battery_surplus_target)
      && ltb_ℤ i.nz.required_power_consumption_kw activation
      && ltb_ℤ i.current_sp_w d.raw
      && leb_ℤ (pos 0) d.raw
      && leb_ℤ (pos 0) i.current_sp_w
    then record { raw = round_to 1000 i.current_sp_w; reason = activation_gate_hold }
    else d

unfoldable pub plan_limit : BatteryInput → Draft → Draft
plan_limit i d = elim i.haeo_nz_plan [
  | none ↦ d
  | some plan ↦
      let limit = limit_of i.battery.device_id plan.device_limits_w in
      if plan.active && ltb_ℤ (pos 0) limit && ltb_ℤ limit d.raw
      then record d { raw = limit }
      else d
]

unfoldable pub net_zero_target : BatteryInput → Draft
net_zero_target i = plan_limit i (
    activation_gate i (
      surplus_target i (
        not_negative (
          hold_below
            (i.no_effective_primary_regulation && not (surplus_active i.battery_surplus_target))
            no_effective_primary_hold i
            (hold_below (i.separate_primary_regulation && i.primary_active)
              primary_consuming_authority_hold i
              (record { raw = formed_target i; reason = floor_reason i }))))))

-- The target by the goal, before the guard.
unfoldable pub goal_target : BatteryInput → Draft
unfolding limit_of
goal_target i = if is_net_zero i.profiles.goal then net_zero_target i else record {
  raw =
      if is_haeo i.haeo.effective_forecast
        && (is_max_export i.profiles.goal || is_cheap_grid_charge i.profiles.goal)
      then round_to 1000 (limit_of i.battery.device_id i.haeo.device_target_kw_by_id)
      else if is_max_export i.profiles.goal
      then neg (pos 4000000)
      else if is_cheap_grid_charge i.profiles.goal
      then min_ℤ (pos 100000) (round_to 1000 i.battery.capabilities.max_absorb_w)
      else round_to 1000 i.cfg.default_sp_w;
  reason = not_applicable;
}

-- _battery_protect_charge_floor_w.
unfoldable pub battery_protect_charge_floor_w : Device → ℤ
battery_protect_charge_floor_w d = round_to 1000 (max_ℤ d.guard.protect_min_absorb_w (pos 0))

-- _normal_limits_discharge_cap over _normalized_discharge_limit_w.
unfoldable pub normal_limits_discharge_cap : ℤ → Device → ℤ
normal_limits_discharge_cap raw d =
    max_ℤ (trunc_w raw) (neg (pos (pos_part (round_to 1000 d.capabilities.max_produce_w))))

unfoldable pub within_strict_limit : ℤ → ℤ → ℤ
within_strict_limit raw limit = min_ℤ (max_ℤ raw (neg limit)) limit

-- The guard's part, the same for every goal.
unfoldable pub guarded_target : BatteryInput → ℤ → ℤ
guarded_target i raw =
    if is_degraded i.profiles.guard
    then pos 0
    else if is_battery_protect i.profiles.guard
    then max_ℤ raw (battery_protect_charge_floor_w i.battery)
    else if is_strict_limits i.profiles.guard
    then within_strict_limit raw (trunc_w i.cfg.strict_limit_w)
    else if is_normal_limits i.profiles.guard
    then round_to 1000 (normal_limits_discharge_cap raw i.battery)
    else round_to 1000 raw

-- MANUAL_SAFE keeps the user's set point within the guard's limits.
unfoldable pub manual_safe_target : BatteryInput → ℤ × Bool
manual_safe_target i =
    let current = round_to 1000 i.current_sp_w in
    if is_degraded i.profiles.guard
    then (pos 0, true)
    else if is_battery_protect i.profiles.guard
    then (max_ℤ current (battery_protect_charge_floor_w i.battery), true)
    else if is_strict_limits i.profiles.guard
    then (within_strict_limit current (trunc_w i.cfg.strict_limit_w), true)
    else (current, false)

unfoldable pub battery_target_and_authority : BatteryInput → BatteryTarget
unfolding manual_safe_target
battery_target_and_authority i =
    if is_manual i.profiles.control
    then record {
      target_w = round_to 1000 i.current_sp_w;
      write_enabled = false;
      battery_min_floor_w = none;
      battery_min_floor_reason = not_applicable;
    }
    else if is_manual_safe i.profiles.control
    then record {
      target_w = (manual_safe_target i).0;
      write_enabled = (manual_safe_target i).1;
      battery_min_floor_w = none;
      battery_min_floor_reason = not_applicable;
    }
    else record {
      target_w = guarded_target i (goal_target i).raw;
      write_enabled = true;
      battery_min_floor_w =
          if is_net_zero i.profiles.goal then some (min_charge_floor_w i) else none;
      battery_min_floor_reason = (goal_target i).reason;
    }
