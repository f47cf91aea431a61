-- ===== src/NetZero/Lifecycle.antt =====
-- modules/ems_core/net_zero/engine.py: compute_hard_off_lifecycle_transition, the latch that keeps
-- a device off while the sun is low.
pub mod Latch
use ha_ems.Prelude.{
  ℕ, ◌+◌, Bool, true, false, ◌&&◌, ◌||◌, not, Option, none, some, leb, ℤ, ltb_ℤ, leb_ℤ, is_some,
  if◌then◌else◌,
}
use ha_ems.Domain.Models.{
  DeviceControlContext, HardOffLifecycleTransition, PreviousDeviceState, LifecycleMode,
}

-- The arguments of one tick. `pv_power_w` is `none` while the solar power is unknown.
pub record LifecycleInput : Type 0 where
  pub lifecycle_enabled : Bool
  pub requested_active : Bool
  pub pv_power_w : Option ℤ
  pub low_pv_threshold_w : ℤ
  pub activation_blocked : Bool
  pub hard_off_low_pv_cycles : ℕ
  pub hard_off_release_cycles : ℕ

-- `max(1, int(cycles or 1))`.
abbrev pub required_cycles : ℕ → ℕ
required_cycles cycles = if leb cycles 1 then 1 else cycles

abbrev pub pv_below : Option ℤ → ℤ → Bool
pv_below none threshold = false
pv_below (some pv) threshold = ltb_ℤ pv threshold

abbrev pub pv_reaches : Option ℤ → ℤ → Bool
pv_reaches none threshold = false
pv_reaches (some pv) threshold = leb_ℤ threshold pv

abbrev pub uses_lifecycle : Option DeviceControlContext → Bool
uses_lifecycle none = false
uses_lifecycle (some context) = context.uses_hard_off_lifecycle

abbrev pub effective_requested_active : LifecycleInput → Bool
effective_requested_active i = i.requested_active && not i.activation_blocked

abbrev pub recovery_condition : LifecycleInput → Bool
recovery_condition i = pv_reaches i.pv_power_w i.low_pv_threshold_w && not i.activation_blocked

unfoldable pub low_cycles : PreviousDeviceState → LifecycleInput → ℕ
low_cycles previous i =
    if effective_requested_active i || not (pv_below i.pv_power_w i.low_pv_threshold_w)
    then 0
    else if leb (previous.low_pv_cycles + 1) (required_cycles i.hard_off_low_pv_cycles)
    then previous.low_pv_cycles + 1
    else required_cycles i.hard_off_low_pv_cycles

unfoldable pub lifecycle_inactive : HardOffLifecycleTransition
lifecycle_inactive = record {
  low_pv_cycles = 0;
  hard_off_release_ready_cycles = 0;
  hard_off_active = false;
  activation_allowed = true;
  release_allowed = false;
  recovery_condition = false;
  mode = LifecycleMode.inactive;
}

-- The device was off before this tick.
unfoldable pub latched_transition :
    PreviousDeviceState → LifecycleInput → HardOffLifecycleTransition
latched_transition previous i =
    let release_cycles =
      if recovery_condition i then previous.hard_off_release_ready_cycles + 1 else 0 in
    let release_allowed = leb (required_cycles i.hard_off_release_cycles) release_cycles in
    record {
      low_pv_cycles = if release_allowed then 0 else required_cycles i.hard_off_low_pv_cycles;
      hard_off_release_ready_cycles = release_cycles;
      hard_off_active = not release_allowed;
      activation_allowed = release_allowed;
      release_allowed = release_allowed;
      recovery_condition = recovery_condition i;
      mode = if release_allowed then LifecycleMode.released else LifecycleMode.hard_off;
    }

-- The device was available before this tick.
unfoldable pub available_transition :
    PreviousDeviceState → LifecycleInput → HardOffLifecycleTransition
unfolding low_cycles
available_transition previous i =
    let enter_hard_off =
      not (effective_requested_active i)
      && leb (required_cycles i.hard_off_low_pv_cycles) (low_cycles previous i) in
    record {
      low_pv_cycles = low_cycles previous i;
      hard_off_release_ready_cycles = 0;
      hard_off_active = enter_hard_off;
      activation_allowed = not enter_hard_off;
      release_allowed = false;
      recovery_condition = false;
      mode = if enter_hard_off then LifecycleMode.hard_off else LifecycleMode.active;
    }

unfoldable pub compute_hard_off_lifecycle_transition :
    Option DeviceControlContext → PreviousDeviceState → LifecycleInput → HardOffLifecycleTransition
unfolding lifecycle_inactive latched_transition available_transition
compute_hard_off_lifecycle_transition context previous i =
    if uses_lifecycle context && i.lifecycle_enabled
    then (if previous.hard_off_active
        then latched_transition previous i
        else available_transition previous i)
    else lifecycle_inactive

-- `_normalize_previous_device_state_entry` of a transition: what the next tick reads.
unfoldable pub persisted_state : HardOffLifecycleTransition → PreviousDeviceState
persisted_state t = record {
  low_pv_cycles = t.low_pv_cycles;
  hard_off_release_ready_cycles = t.hard_off_release_ready_cycles;
  hard_off_active = t.hard_off_active;
}
