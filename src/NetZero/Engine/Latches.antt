-- ===== src/NetZero/Engine/Latches.antt =====
-- modules/ems_core/net_zero/engine.py: _lifecycle_transition_maps, the hard-off latch of every
-- device that has one.
use ha_ems.Prelude.{
  Bool, ◌&&◌, ◌||◌, Option, none, some, List, [], ◌∷◌, String, same, has_id, ℤ, if◌then◌else◌,
}
use ha_ems.Domain.Profiles.{Profiles, is_automatic, is_net_zero, is_normal_limits}
use ha_ems.Domain.Models.{Device, PreviousDeviceState, HardOffLifecycleTransition}
use ha_ems.NetZero.Judgement.{low_pv_threshold}
use ha_ems.NetZero.Lifecycle.{
  LifecycleInput, compute_hard_off_lifecycle_transition, persisted_state,
}
use ha_ems.NetZero.Engine.Devices.{device_control_context}

-- The arguments. A device without a previous state has the default one.
pub record LatchInput : Type 0 where
  pub profiles : Profiles
  pub previous_of : String → PreviousDeviceState
  pub active_device_ids : List String
  pub primary_consuming_device_ids : List String
  pub pv_power_kw : Option ℤ
  pub power_of : Device → ℤ
  pub requested_active_of : String → Bool
  pub protected_of : String → Bool

-- `participates`.
abbrev pub takes_part : LatchInput → Device → Bool
takes_part i d =
    has_id d.device_id i.primary_consuming_device_ids
    || (d.capabilities.can_absorb_w && d.policy.surplus_allowed)
    || (i.previous_of d.device_id).hard_off_active

unfoldable pub lifecycle_input : LatchInput → Device → LifecycleInput
lifecycle_input i d = record {
  lifecycle_enabled =
      is_automatic i.profiles.control
      && is_net_zero i.profiles.goal
      && is_normal_limits i.profiles.guard;
  requested_active =
      if has_id d.device_id i.primary_consuming_device_ids
      then i.requested_active_of d.device_id
      else has_id d.device_id i.active_device_ids;
  pv_power_w = i.pv_power_kw;
  low_pv_threshold_w = low_pv_threshold d.policy.low_pv_threshold_w;
  activation_blocked = i.protected_of d.device_id;
  hard_off_low_pv_cycles = d.policy.hard_off_low_pv_cycles;
  hard_off_release_cycles = d.policy.hard_off_release_cycles;
}

unfoldable pub device_transition : LatchInput → Device → Option HardOffLifecycleTransition
unfolding lifecycle_input
device_transition i d =
    if d.capabilities.uses_hard_off_lifecycle && takes_part i d
    then some (
        compute_hard_off_lifecycle_transition (some (device_control_context d (i.power_of d)))
          (i.previous_of d.device_id) (lifecycle_input i d))
    else none

-- `transitions.get`.
unfoldable pub transition_by_id :
    LatchInput → List Device → String → Option HardOffLifecycleTransition
unfolding device_transition
transition_by_id i [] device_id = none
transition_by_id i (d ∷ ds) device_id =
    let rest = transition_by_id i ds device_id in
    if same d.device_id device_id then device_transition i d else rest

-- `next_states`: the device states that the next tick reads.
unfoldable pub next_state_by_id : LatchInput → List Device → String → PreviousDeviceState
unfolding transition_by_id
next_state_by_id i ds device_id = elim (transition_by_id i ds device_id) [
  | none ↦ i.previous_of device_id
  | some t ↦ persisted_state t
]
