-- ===== src/Writers/Battery.antt =====
-- ems_actuator_writers.py: _write_battery_actuator.
pub mod Approach
use ha_ems.Prelude.{
  ℕ, Bool, true, false, not, Option, none, some, String, ℤ, pos, pos_part, magnitude, ◌+ℤ◌, ◌-ℤ◌,
  neg, min_ℤ, max_ℤ, ltb_ℤ, round_to, eqb_ℤ, if◌then◌else◌,
}
use ha_ems.Domain.Profiles.{is_manual, is_manual_safe}
use ha_ems.Domain.Models.{Capabilities, CoreConfig, GlobalConfig, DevicePolicy}
use ha_ems.Domain.Capabilities.{clamp_target_w_for_capabilities, capability_block_reason}
use ha_ems.Writers.Services.{
  Store, HomeAssistant, Writer, done, raised, set_number, ◌>>=◌, ◌>>◌, pure,
}
use ha_ems.Writers.Policies.{
  WriterContext, WriterAction, WriterReason, WriterTrace, skipped, reason_or, device_policy_by_id,
  capability_device_config_for_id,
}

-- `float(value or default)`: a configured 0 gives the default.
abbrev pub or_default : ℤ → ℤ → ℤ
or_default value default = if eqb_ℤ value (pos 0) then default else value

abbrev pub writer_deadband_w : GlobalConfig → ℤ
writer_deadband_w g = or_default g.deadband_w (pos 100000)

abbrev pub writer_ramp_w : GlobalConfig → ℤ
writer_ramp_w g = or_default g.ramp_w (pos 500000)

-- The set point after one step of the ramp, on the grid of 50 W.
unfoldable pub next_setpoint : ℤ → ℤ → ℤ → ℤ
next_setpoint ramp current_w target_w =
    let step = max_ℤ (min_ℤ (target_w -ℤ current_w) ramp) (neg ramp) in
    round_to 50000 (current_w +ℤ step)

abbrev pub in_writer_deadband : ℤ → ℤ → ℤ → Bool
in_writer_deadband deadband current_w target_w =
    ltb_ℤ (pos (magnitude (target_w -ℤ current_w))) deadband

-- The part behind the checks.
unfoldable pub move_setpoint :
    HomeAssistant → WriterContext → String → Capabilities → ℤ → Writer WriterTrace
move_setpoint ha ctx entity c policy_w s =
    let target_w = clamp_target_w_for_capabilities c policy_w in
    let current_w = s.number entity in
    let g = ctx.cfg.global_config in
    if in_writer_deadband (writer_deadband_w g) current_w target_w
    then done (skipped WriterReason.deadband) s
    else (do
      set_number ha entity (next_setpoint (writer_ramp_w g) current_w target_w)
      pure (record {
        action = WriterAction.write;
        reason = reason_or (capability_block_reason c policy_w) (
            if is_manual_safe ctx.control
            then WriterReason.manual_safe_clamp
            else WriterReason.state_changed);
        written = true;
      }))
        s

unfoldable pub write_battery_actuator : HomeAssistant → WriterContext → String → Writer WriterTrace
write_battery_actuator ha ctx device_id s =
    if is_manual ctx.control
    then done (skipped WriterReason.manual_skip) s
    else elim (device_policy_by_id ctx device_id) [
      | none ↦ done (skipped WriterReason.missing_device_policy) s
      | some policy ↦
          if not policy.enabled
          then done (skipped WriterReason.policy_write_disabled) s
          else elim (capability_device_config_for_id ctx.cfg device_id) [
            | none ↦ done (skipped WriterReason.missing_device_config) s
            | some c ↦ elim (ctx.entities_of device_id).target_w [
              | none ↦ done (skipped WriterReason.missing_actuator_entity) s
              | some entity ↦ move_setpoint ha ctx entity c policy.target_w s
            ]
          ]
    ]
