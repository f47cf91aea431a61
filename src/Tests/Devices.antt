-- ===== src/Tests/Devices.antt =====
-- Capabilities, the EV's current, and the policies of the battery and the EV.
use ha_ems.Prelude.{
  String, ◌*◌, ◌≤◌, true, false, none, some, [], ℤ, pos, neg, ◌≡◌, refl, arith, inr, round_div,
  min_ℤ, max_ℤ,
}
use ha_ems.Domain.Profiles.{ForecastProfile}
use ha_ems.Domain.Models.{
  DeviceKind, DevicePolicy, PolicyMode, PolicyReason, Capabilities, HaeoTargets,
}
use ha_ems.Domain.EvPower.{
  EvCharger, ev_power_w_to_current_a, ev_current_a_to_power_w, ev_min_current_a_from_min_absorb_w,
  ev_max_current_a_from_max_absorb_w, check_charger, clamp_current, ceil_to_step, floor_to_step,
  quantize_to_supported_step, ev_per_amp_w,
}
use ha_ems.Domain.EvPower.Limits.{conversion_within_limits, conversion_succeeds}
use ha_ems.NetZero.Forecast.{EvContext}
use ha_ems.NetZero.Ev.{EvSurplusInput}
use ha_ems.NetZero.Enforcement.{PolicyDevice}
use ha_ems.Tests.Data.{net_zero_profiles, battery_capabilities, ev_target}

abbrev absorb_only : Capabilities
absorb_only = record battery_capabilities { can_produce_w = false }

-- Three phases of 230 V in steps of 1 A.
abbrev charger : EvCharger
charger = record { phases = 3; voltage_v = 230000; current_step_a = 1000 }

conversion_within_limits_example :
    (4140000 * 1000 ≤ ev_current_a_to_power_w (pos 10000) charger)
    × (ev_current_a_to_power_w (pos 10000) charger ≤ 11040000 * 1000)
unfolding ev_power_w_to_current_a ev_min_current_a_from_min_absorb_w
    ev_max_current_a_from_max_absorb_w check_charger ev_per_amp_w clamp_current ceil_to_step
    floor_to_step quantize_to_supported_step round_div min_ℤ max_ℤ
conversion_within_limits_example =
    conversion_within_limits (pos 7000000) charger 4140000 11040000 {current_a = pos 10000} refl

conversion_succeeds_example :
    (current_a : ℤ) × (ev_power_w_to_current_a (pos 7000000) charger 4140000 11040000
      ≡ inr current_a)
unfolding ev_per_amp_w
conversion_succeeds_example =
    conversion_succeeds (pos 7000000) charger 4140000 11040000 (omega arith) (omega arith)
      (omega arith) (omega arith) (omega arith)

abbrev limits_of_house : String → PolicyDevice
limits_of_house x = record { kind = DeviceKind.battery; capabilities = absorb_only }

-- A discharge that the device cannot follow.
abbrev discharge : DevicePolicy
discharge = record {
  device_id = "battery";
  target_w = neg (pos 3000000);
  enabled = true;
  mode = PolicyMode.power;
  reason = PolicyReason.producer_authority;
}

abbrev no_targets : HaeoTargets
no_targets = record {
  effective_forecast = ForecastProfile.none;
  configured_forecast = ForecastProfile.none;
  fresh = false;
  device_target_kw_by_id = [];
}

abbrev ev_context : EvContext
ev_context = record {
  device_id = "ev";
  force_on = false;
  max_absorb_w = pos 11000000;
  min_absorb_w = pos 4140000;
}

abbrev ev_input : EvSurplusInput
ev_input = record {
  profiles = net_zero_profiles;
  capabilities = battery_capabilities;
  ev = ev_context;
  haeo = no_targets;
  surplus_target = some (record ev_target { active = true });
  lifecycle_transition = none;
  dispatch_decision = none;
  combo_change_requires_clear = false;
  rpnz_w = pos 0;
  haeo_nz_plan = none;
}
