-- ===== src/Writers/Policies.antt =====
-- ems_actuator_writers.py: what a writer reads before it acts. A published policy always has its
-- fields, so `policy.get` finds them.
use ha_ems.Prelude.{Bool, false, Option, none, some, List, [], ◌∷◌, String, same, if◌then◌else◌}
use ha_ems.Domain.Profiles.{ControlProfile}
use ha_ems.Domain.Models.{Capabilities, CoreConfig, DevicePolicy, PolicyReason, device_by_id}
use ha_ems.Domain.Capabilities.{rounded_capabilities}
use ha_ems.Domain.EvPower.{EvCharger}

-- The entities of a device in the adapter mapping; a missing or empty one is `none`.
pub record AdapterEntities : Type 0 where
  pub target_w : Option String
  pub enabled : Option String
  pub current_a : Option String

-- What the writers are given. `policies` is `none` where no entity for the policies is mapped.
pub record WriterContext : Type 0 where
  pub control : ControlProfile
  pub cfg : CoreConfig
  pub policies : Option (List DevicePolicy)
  pub entities_of : String → AdapterEntities
  pub charger_of : String → EvCharger

pub data WriterAction : Type 0 where
  skip write turn_on turn_off enable_and_set_current restore_min_current hard_off
        disable_and_restore_min_current :
      WriterAction

pub data WriterReason : Type 0 where
  manual_skip missing_device_policy policy_write_disabled missing_device_config
        missing_actuator_entity deadband manual_safe_clamp state_changed policy_skip
        already_matching restore_min hard_off target_zero_disable already_disabled :
      WriterReason
  capability_blocked : PolicyReason → WriterReason

pub record WriterTrace : Type 0 where
  pub action : WriterAction
  pub reason : WriterReason
  pub written : Bool

abbrev pub skipped : WriterReason → WriterTrace
skipped reason = record { action = WriterAction.skip; reason = reason; written = false }

-- `capability_reason or reason`.
abbrev pub reason_or : Option PolicyReason → WriterReason → WriterReason
reason_or none reason = reason
reason_or (some blocked) reason = capability_blocked blocked

unfoldable pub find_policy : String → List DevicePolicy → Option DevicePolicy
find_policy device_id [] = none
find_policy device_id (p ∷ ps) =
    if same p.device_id device_id then some p else find_policy device_id ps

-- _device_policy_by_id, and `if device_id else None`.
unfoldable pub device_policy_by_id : WriterContext → String → Option DevicePolicy
device_policy_by_id ctx device_id =
    if same device_id ""
    then none
    else elim ctx.policies [ none ↦ none | some policies ↦ find_policy device_id policies ]

unfoldable pub capability_device_config_for_id : CoreConfig → String → Option Capabilities
capability_device_config_for_id cfg device_id = elim (device_by_id cfg device_id) [
  | none ↦ none
  | some d ↦ some (rounded_capabilities d.capabilities)
]
