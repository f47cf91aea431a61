-- ===== src/NetZero/Engine/Build.antt =====
-- modules/ems_core/net_zero/engine.py: _build_device_policies, one policy for each configured device.
use ha_ems.Prelude.{Bool, true, false, Option, none, some, List, [], ◌∷◌, String, ℤ, pos, round_to}
use ha_ems.Domain.Models.{Device, DeviceKind, DevicePolicy, PolicyMode, PolicyReason}
use ha_ems.Domain.Capabilities.{rounded_capabilities}
use ha_ems.NetZero.Forecast.{RelayCommand}
use ha_ems.NetZero.Ev.{EvPolicy}

-- An entry of `battery_policies_by_id`.
pub record BatteryPolicy : Type 0 where
  pub target_w : ℤ
  pub enabled : Bool
  pub mode : PolicyMode
  pub reason : PolicyReason

-- The dictionaries that the policies are built from.
pub record PolicySources : Type 0 where
  pub battery_policy_of : String → Option BatteryPolicy
  pub ev_policy_of : String → Option EvPolicy
  pub relay_command_of : String → Option RelayCommand
  pub producer_target_of : String → Option ℤ

abbrev pub inactive_battery : BatteryPolicy
inactive_battery = record {
  target_w = pos 0;
  enabled = false;
  mode = PolicyMode.power;
  reason = PolicyReason.battery_policy_inactive;
}

abbrev pub inactive_ev : EvPolicy
inactive_ev = record {
  target_w = pos 0;
  enabled = false;
  mode = PolicyMode.restore_min;
  reason = PolicyReason.ev_policy_inactive;
}

abbrev pub or_else : {A : Type 0} → Option A → A → A
or_else none default = default
or_else (some a) default = a

abbrev pub producer_policy : String → ℤ → DevicePolicy
producer_policy device_id target_w = record {
  device_id = device_id;
  target_w = round_to 1000 target_w;
  enabled = true;
  mode = PolicyMode.power;
  reason = PolicyReason.producer_authority;
}

abbrev pub relay_policy : Device → RelayCommand → DevicePolicy
relay_policy d command = record {
  device_id = d.device_id;
  target_w = elim command [
    | RelayCommand.on ↦ round_to 1000 (rounded_capabilities d.capabilities).max_absorb_w
    | RelayCommand.off ↦ pos 0
    | RelayCommand.leave ↦ pos 0
  ];
  enabled = elim command [
    | RelayCommand.on ↦ true
    | RelayCommand.off ↦ false
    | RelayCommand.leave ↦ false
  ];
  mode = elim command [
    | RelayCommand.on ↦ PolicyMode.relay
    | RelayCommand.off ↦ PolicyMode.relay
    | RelayCommand.leave ↦ PolicyMode.skip
  ];
  reason = PolicyReason.relay_policy;
}

abbrev pub battery_device_policy : String → BatteryPolicy → DevicePolicy
battery_device_policy device_id p = record {
  device_id = device_id;
  target_w = round_to 1000 p.target_w;
  enabled = p.enabled;
  mode = p.mode;
  reason = p.reason;
}

abbrev pub ev_device_policy : String → EvPolicy → DevicePolicy
ev_device_policy device_id p = record {
  device_id = device_id;
  target_w = round_to 1000 p.target_w;
  enabled = p.enabled;
  mode = p.mode;
  reason = p.reason;
}

-- The part of the body behind the producers' `continue`, by the kind; another kind has no policy.
abbrev pub kind_policy : PolicySources → Device → DeviceKind → Option DevicePolicy
kind_policy s d DeviceKind.battery =
    some (
      battery_device_policy d.device_id
        (or_else (s.battery_policy_of d.device_id) inactive_battery))
kind_policy s d DeviceKind.ev_charger =
    some (ev_device_policy d.device_id (or_else (s.ev_policy_of d.device_id) inactive_ev))
kind_policy s d DeviceKind.relay =
    some (relay_policy d (or_else (s.relay_command_of d.device_id) RelayCommand.off))
kind_policy s d DeviceKind.unrecognized = none

unfoldable pub device_policy : PolicySources → Device → Option DevicePolicy
device_policy s d = elim (s.producer_target_of d.device_id) [
  | some target_w ↦ some (producer_policy d.device_id target_w)
  | none ↦ kind_policy s d d.kind
]

unfoldable pub build_device_policies : PolicySources → List Device → List DevicePolicy
unfolding device_policy
build_device_policies s [] = []
build_device_policies s (d ∷ ds) =
    let rest = build_device_policies s ds in
    elim (device_policy s d) [ none ↦ rest | some p ↦ p ∷ rest ]
