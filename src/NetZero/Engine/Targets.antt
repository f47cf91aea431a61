-- ===== src/NetZero/Engine/Targets.antt =====
-- modules/ems_core/net_zero/engine.py: the targets of compute_net_zero_engine_outputs for batteries,
-- producers, relays and EV chargers.
use ha_ems.Prelude.{
  ℕ, Bool, false, not, ◌&&◌, ◌||◌, Option, none, some, List, [], ◌∷◌, String, same, has_id, ltb, ℤ,
  pos, pos_part, ltb_ℤ, round_to, if◌then◌else◌,
}
use ha_ems.Domain.Profiles.{is_automatic, is_horizon_by_haeo, is_net_zero}
use ha_ems.Domain.Models.{
  Device, DeviceKind, DeviceControlContext, PolicyMode, PolicyReason, SurplusDeviceTarget,
  device_by_id, is_ev_charger,
}
use ha_ems.Surplus.Contexts.{surplus_targets}
use ha_ems.NetZero.Forecast.{EvContext, RelayCommand, relay_strategy_command}
use ha_ems.NetZero.Producer.{
  Allocation, Share, allocate_producer_dispatch, producer_feedback_request,
  producer_transient_target_w,
}
use ha_ems.NetZero.Battery.{BatteryInput, BatteryTarget, battery_target_and_authority}
use ha_ems.NetZero.Ev.{EvPolicy, EvSurplusInput, ev_surplus_policy_for_device}
use ha_ems.NetZero.Engine.Devices.{find_context}
use ha_ems.NetZero.Engine.Build.{BatteryPolicy}
use ha_ems.NetZero.Engine.Input.{
  EngineInput, normalized_haeo, fallback_order, device_contexts, producers, active_device_ids,
}
use ha_ems.NetZero.Engine.Tick.{
  is_preliminarily_protected, transition_of, primary_resolution, candidate_input, surplus_decision,
  combo_change_requires_clear,
}

abbrev pub effective_primary : EngineInput → String
effective_primary i = (primary_resolution i).effective_device_id

-- _is_ev_device_id.
abbrev pub is_ev_device_id : EngineInput → String → Bool
is_ev_device_id i device_id = elim (device_by_id i.cfg device_id) [
  | none ↦ false
  | some d ↦ is_ev_charger d.kind
]

abbrev pub is_forced_device : EngineInput → String → Bool
is_forced_device i device_id = elim (device_by_id i.cfg device_id) [
  | none ↦ false
  | some d ↦ d.policy.force_on
]

-- The condition under which the primary EV gives up its target.
unfoldable pub primary_ev_cleared : EngineInput → Bool
primary_ev_cleared i =
    is_ev_device_id i (effective_primary i)
    && is_net_zero i.profiles.goal
    && combo_change_requires_clear i
    && not (is_forced_device i (effective_primary i))

-- `primary_consuming_device_target_w` as the battery reads it.
unfoldable pub primary_target_w : EngineInput → ℤ
unfolding primary_ev_cleared
primary_target_w i =
    if primary_ev_cleared i then pos 0 else (primary_resolution i).effective_target_w

unfoldable pub primary_ev_target_w : EngineInput → ℤ
unfolding primary_target_w
primary_ev_target_w i =
    if is_ev_device_id i (effective_primary i) then primary_target_w i else pos 0

unfoldable pub primary_ev_device_mode : EngineInput → PolicyMode
primary_ev_device_mode i =
    if primary_ev_cleared i
    then PolicyMode.restore_min
    else if is_ev_device_id i (effective_primary i)
        && ltb_ℤ (pos 0) (primary_resolution i).effective_target_w
    then PolicyMode.burn
    else PolicyMode.skip

unfoldable pub any_protected : EngineInput → List String → Bool
any_protected i [] = false
any_protected i (x ∷ xs) = is_preliminarily_protected i x || any_protected i xs

-- `primary_ev_reason`; the resolver finds no protection that the candidates did not have before.
unfoldable pub primary_ev_reason : EngineInput → PolicyReason
unfolding any_protected
primary_ev_reason i =
    if is_forced_device i (effective_primary i) && ltb_ℤ (pos 0) (primary_ev_target_w i)
    then PolicyReason.ev_force_on
    else if any_protected i (fallback_order i)
    then PolicyReason.primary_producer_feedback_protection
    else PolicyReason.ev_primary_policy

-- `surplus_target_by_id.get`: a later target of the same identifier replaces an earlier one.
unfoldable pub find_target : List SurplusDeviceTarget → String → Option SurplusDeviceTarget
find_target [] device_id = none
find_target (t ∷ ts) device_id = elim (find_target ts device_id) [
  | some later ↦ some later
  | none ↦ if same t.device_id device_id then some t else none
]

unfoldable pub surplus_target_of : EngineInput → String → Option SurplusDeviceTarget
unfolding find_target
surplus_target_of i = find_target (surplus_targets (candidate_input i))

abbrev pub is_ev_context : Option DeviceControlContext → Bool
is_ev_context none = false
is_ev_context (some c) = is_ev_charger c.kind

unfoldable pub battery_input : EngineInput → Device → BatteryInput
battery_input i d = record {
  profiles = i.profiles;
  cfg = i.cfg.global_config;
  battery = d;
  current_sp_w = i.battery_setpoint_of d.device_id;
  grid_power_w = i.grid_power_w;
  haeo = normalized_haeo i;
  nz = i.nz;
  primary_is_ev = is_ev_context (find_context (device_contexts i) (effective_primary i));
  primary_active = is_ev_device_id i (effective_primary i) && ltb_ℤ (pos 0) (primary_ev_target_w i);
  primary_target_w = primary_target_w i;
  separate_primary_regulation =
      not (same (effective_primary i) "") && not (same (effective_primary i) d.device_id);
  is_effective_primary = same (effective_primary i) d.device_id;
  no_effective_primary_regulation = same (effective_primary i) "";
  haeo_nz_plan = i.haeo_nz_plan;
  battery_surplus_target = surplus_target_of i d.device_id;
}

abbrev pub battery_policy_from : BatteryTarget → BatteryPolicy
battery_policy_from t = record {
  target_w = round_to 1000 t.target_w;
  enabled = t.write_enabled;
  mode = PolicyMode.power;
  reason = PolicyReason.battery_policy;
}

abbrev pub only_battery : DeviceKind → BatteryPolicy → Option BatteryPolicy
only_battery DeviceKind.battery p = some p
only_battery _ p = none

-- An entry of `battery_policies_by_id`; a device of another kind has none.
unfoldable pub battery_policy_of : EngineInput → String → Option BatteryPolicy
unfolding battery_input
battery_policy_of i device_id = elim (device_by_id i.cfg device_id) [
  | none ↦ none
  | some d ↦
      only_battery d.kind (battery_policy_from (battery_target_and_authority (battery_input i d)))
]

-- The producers' stage: whether negative targets are served, and each producer's share.
abbrev pub producer_request_w : EngineInput → ℕ
producer_request_w i =
    (producer_feedback_request i.cfg.global_config (producers i) i.nz.rpnz_w
      i.grid_power_w).requested_w

abbrev pub is_producing : EngineInput → Bool
is_producing i =
    is_net_zero i.profiles.goal
    && (is_automatic i.profiles.control || is_horizon_by_haeo i.profiles.control)
    && ltb 0 (producer_request_w i)

unfoldable pub producer_allocation : EngineInput → Allocation
producer_allocation i =
    allocate_producer_dispatch i.profiles i.cfg.global_config (producers i)
      (pos (producer_request_w i))

unfoldable pub allocated_w_of : List Share → String → ℕ
allocated_w_of [] device_id = 0
allocated_w_of (s ∷ ss) device_id =
    let rest = allocated_w_of ss device_id in
    if same s.device_id device_id then s.allocated_w else rest

-- `producer_authority_by_id`.
unfoldable pub producer_target_of : EngineInput → String → Option ℤ
unfolding producer_allocation allocated_w_of
producer_target_of i device_id =
    let allocated = allocated_w_of (producer_allocation i).shares device_id in
    if is_producing i && ltb 0 allocated
    then elim (find_context (producers i) device_id) [
      | none ↦ none
      | some c ↦ some (producer_transient_target_w i.cfg.global_config c allocated)
    ]
    else none

-- `relay_policy_states`.
unfoldable pub relay_command_of : EngineInput → String → Option RelayCommand
relay_command_of i device_id = elim (device_by_id i.cfg device_id) [
  | none ↦ none
  | some d ↦ elim d.kind [
    | DeviceKind.relay ↦ some (
        relay_strategy_command i.profiles (d.policy.surplus_allowed && d.capabilities.can_absorb_w)
          d.policy.force_on (has_id device_id (active_device_ids i)))
    | _ ↦ none
  ]
]

-- _ev_context.
abbrev pub ev_context : Device → EvContext
ev_context d = record {
  device_id = d.device_id;
  force_on = d.policy.force_on;
  max_absorb_w = pos (pos_part d.capabilities.max_absorb_w);
  min_absorb_w = pos (pos_part d.capabilities.min_absorb_w);
}

unfoldable pub ev_surplus_input : EngineInput → Device → EvSurplusInput
ev_surplus_input i d = record {
  profiles = i.profiles;
  capabilities = d.capabilities;
  ev = ev_context d;
  haeo = normalized_haeo i;
  surplus_target = surplus_target_of i d.device_id;
  lifecycle_transition = transition_of i d.device_id;
  dispatch_decision = some (surplus_decision i);
  combo_change_requires_clear = combo_change_requires_clear i;
  rpnz_w = i.nz.rpnz_w;
  haeo_nz_plan = i.haeo_nz_plan;
}

unfoldable pub primary_ev_policy : EngineInput → EvPolicy
unfolding primary_ev_target_w primary_ev_device_mode primary_ev_reason
primary_ev_policy i = record {
  target_w = primary_ev_target_w i;
  enabled = ltb_ℤ (pos 0) (primary_ev_target_w i);
  mode = primary_ev_device_mode i;
  reason = primary_ev_reason i;
}

-- `ev_policy_specs_by_id`.
unfoldable pub ev_policy_of : EngineInput → String → Option EvPolicy
unfolding primary_ev_policy ev_surplus_input
ev_policy_of i device_id = elim (device_by_id i.cfg device_id) [
  | none ↦ none
  | some d ↦ elim d.kind [
    | DeviceKind.ev_charger ↦ some (
        if same device_id (effective_primary i)
        then primary_ev_policy i
        else ev_surplus_policy_for_device (ev_surplus_input i d))
    | _ ↦ none
  ]
]
