-- ===== src/Writers/Relay.antt =====
-- ems_actuator_writers.py: _write_relay_actuator. The loop gives every relay its identifier, so
-- the branch for none is the missing policy.
pub mod Matches
use ha_ems.Prelude.{
  ℕ, Bool, true, false, not, ◌&&◌, Option, none, some, String, ℤ, if◌then◌else◌, is_some,
}
use ha_ems.Domain.Models.{Capabilities, DevicePolicy, PolicyMode}
use ha_ems.Domain.Capabilities.{capability_block_reason}
use ha_ems.Writers.Services.{
  Store, HomeAssistant, Writer, done, raised, set_boolean, ◌>>=◌, ◌>>◌, pure,
}
use ha_ems.Writers.Policies.{
  WriterContext, WriterAction, WriterReason, WriterTrace, skipped, reason_or, device_policy_by_id,
  capability_device_config_for_id,
}

abbrev pub is_skip_mode : PolicyMode → Bool
is_skip_mode PolicyMode.skip = true
is_skip_mode _ = false

-- `strategy == 1`.
abbrev pub wants_on : Capabilities → DevicePolicy → Bool
wants_on c policy = not (is_some (capability_block_reason c policy.target_w)) && policy.enabled

unfoldable pub switch_relay :
    HomeAssistant → String → Capabilities → DevicePolicy → Writer WriterTrace
switch_relay ha entity c policy s =
    let capability_reason = capability_block_reason c policy.target_w in
    if is_skip_mode policy.mode
    then done (skipped WriterReason.policy_skip) s
    else if wants_on c policy && not (s.switch entity)
    then (do
      set_boolean ha entity true
      pure (record {
        action = WriterAction.turn_on;
        reason = reason_or capability_reason WriterReason.state_changed;
        written = true;
      }))
        s
    else if not (wants_on c policy) && s.switch entity
    then (do
      set_boolean ha entity false
      pure (record {
        action = WriterAction.turn_off;
        reason = reason_or capability_reason WriterReason.state_changed;
        written = true;
      }))
        s
    else done (skipped (reason_or capability_reason WriterReason.already_matching)) s

unfoldable pub write_relay_actuator : HomeAssistant → WriterContext → String → Writer WriterTrace
write_relay_actuator ha ctx device_id s = elim (device_policy_by_id ctx device_id) [
  | none ↦ done (skipped WriterReason.missing_device_policy) s
  | some policy ↦ elim (ctx.entities_of device_id).enabled [
    | none ↦ done (skipped WriterReason.missing_actuator_entity) s
    | some entity ↦ elim (capability_device_config_for_id ctx.cfg device_id) [
      | none ↦ done (skipped WriterReason.missing_device_config) s
      | some c ↦ switch_relay ha entity c policy s
    ]
  ]
]
