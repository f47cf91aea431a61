-- ===== src/NetZero/Engine/Outputs.antt =====
-- modules/ems_core/net_zero/engine.py: compute_net_zero_engine_outputs, from the targets to the
-- policies and the command that leave a tick.
use ha_ems.Prelude.{false, none, some, List, String, pos}
use ha_ems.Domain.Models.{
  DeviceKind, DevicePolicy, PolicyReason, PreviousDeviceState, SurplusDispatchDecision,
  Capabilities, device_by_id,
}
use ha_ems.Domain.Capabilities.{rounded_capabilities}
use ha_ems.Dispatch.{Command}
use ha_ems.NetZero.Enforcement.{PolicyDevice, enforce_device_policy_capabilities}
use ha_ems.NetZero.Engine.Build.{PolicySources, build_device_policies}
use ha_ems.NetZero.Engine.Input.{EngineInput}
use ha_ems.NetZero.Engine.Tick.{surplus_decision, dispatch_command, next_previous_of}
use ha_ems.NetZero.Engine.Targets.{
  battery_policy_of, producer_target_of, relay_command_of, ev_policy_of,
}

unfoldable pub policy_sources : EngineInput → PolicySources
unfolding battery_policy_of ev_policy_of relay_command_of producer_target_of
policy_sources i = record {
  battery_policy_of = battery_policy_of i;
  ev_policy_of = ev_policy_of i;
  relay_command_of = relay_command_of i;
  producer_target_of = producer_target_of i;
}

abbrev pub no_capabilities : Capabilities
no_capabilities = record {
  can_absorb_w = false;
  can_produce_w = false;
  supports_primary_consuming_regulation = false;
  supports_producing_regulation = false;
  min_absorb_w = pos 0;
  max_absorb_w = pos 0;
  step_w = pos 0;
  min_produce_w = pos 0;
  max_produce_w = pos 0;
  uses_hard_off_lifecycle = false;
}

-- _capability_device_config_for_id. Every policy is of a configured device, so the `KeyError` of an
-- unknown one, here a device that can do nothing, does not occur.
unfoldable pub policy_device_of : EngineInput → String → PolicyDevice
policy_device_of i device_id = elim (device_by_id i.cfg device_id) [
  | none ↦ record { kind = DeviceKind.unrecognized; capabilities = no_capabilities }
  | some d ↦ record { kind = d.kind; capabilities = rounded_capabilities d.capabilities }
]

pub record EngineOutputs : Type 0 where
  pub device_policies : List DevicePolicy
  pub capability_blocked_devices : List (String × PolicyReason)
  pub dispatch_command : Command
  pub surplus_decision : SurplusDispatchDecision
  pub previous_of : String → PreviousDeviceState

unfoldable pub compute_net_zero_engine_outputs : EngineInput → EngineOutputs
unfolding policy_sources policy_device_of
compute_net_zero_engine_outputs i =
    let (policies, blocked) =
      enforce_device_policy_capabilities (policy_device_of i)
        (build_device_policies (policy_sources i) i.cfg.devices) in
    record {
      device_policies = policies;
      capability_blocked_devices = blocked;
      dispatch_command = dispatch_command i;
      surplus_decision = surplus_decision i;
      previous_of = next_previous_of i;
    }
