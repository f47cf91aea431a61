-- ===== src/Tests/Guarded.antt =====
-- The guard, and what it leaves of a battery's policy.
use ha_ems.Prelude.{some, [], ◌∷◌, List, Memᴰ, String, pos, ◌≡◌, ◌↔◌, refl, arith, neg}
use ha_ems.Domain.Profiles.{GuardProfile}
use ha_ems.Domain.Models.{DevicePolicy, device_by_id}
use ha_ems.Guard.{BatteryState, thresholds_of, state_of, evaluate_guard}
use ha_ems.Guard.Health.{IsSafe}
use ha_ems.Guard.Watched.{IsGuarded, producer}
use ha_ems.Guard.Normal.{evaluate_guard_normal}
use ha_ems.NetZero.Engine.Input.{EngineInput, current_power_of}
use ha_ems.NetZero.Engine.Devices.{
  find_context, configured_device_contexts, producer_device_contexts,
}
use ha_ems.NetZero.Engine.Outputs.{compute_net_zero_engine_outputs}
use ha_ems.NetZero.Engine.Limits.{
  IsCharging, IsLimited, protected_battery_charges, strict_battery_within_limit,
}
use ha_ems.Tests.Data.{house, house_battery}
use ha_ems.Tests.Engine.{dark, importing}

abbrev charged_state : BatteryState
charged_state = record {
  heartbeat_age_s = some 1000000;
  soc = some (pos 90000);
  min_cell_voltage_v = some (pos 3300);
}

abbrev states : List (String × BatteryState)
states = ("battery", charged_state) ∷ []

evaluate_guard_normal_example :
    ((evaluate_guard GuardProfile.battery_protect states house).guard ≡ GuardProfile.normal_limits)
    ↔ ((x : String)
        → IsGuarded house x
        → IsSafe GuardProfile.battery_protect 900000000 (thresholds_of house x) (state_of x states))
evaluate_guard_normal_example =
    evaluate_guard_normal GuardProfile.battery_protect states house "battery"
      (producer house_battery (Memᴰ.head refl) refl refl refl) refl

abbrev protecting : EngineInput
protecting = record dark {
  profiles = record dark.profiles { guard = GuardProfile.battery_protect };
}

protected_battery_charges_example :
    (p : DevicePolicy) × Memᴰ p (compute_net_zero_engine_outputs protecting).device_policies
    × IsCharging "battery" (pos 200000) p
unfolding device_by_id
protected_battery_charges_example =
    protected_battery_charges protecting house_battery (pos 200000) (Memᴰ.head refl) refl refl refl
      refl refl (refl, refl) (ground arith) (ground arith) (ground arith)

abbrev limited : EngineInput
limited = record importing {
  profiles = record importing.profiles { guard = GuardProfile.strict_limits };
}

strict_battery_within_limit_example :
    (p : DevicePolicy) × Memᴰ p (compute_net_zero_engine_outputs limited).device_policies
    × IsLimited "battery" (pos 2000000) p
unfolding device_by_id find_context configured_device_contexts producer_device_contexts neg
    current_power_of
strict_battery_within_limit_example =
    strict_battery_within_limit limited house_battery (Memᴰ.head refl) refl refl refl refl
      (refl, refl) (ground arith) (λ c found. ground arith)
