-- ===== src/Writers/Ev.antt =====
-- ems_actuator_writers.py: _write_ev_actuator.
pub mod Follows
use ha_ems.Prelude.{
  ℕ, Bool, true, false, not, ◌&&◌, ◌||◌, Option, none, some, String, ℤ, pos, pos_part, neg_part,
  sub_ℕ, ◌/◌, ◌*◌, ltb_ℤ, eqb_ℤ, if◌then◌else◌, is_some, inl, inr, ◌⊎◌,
}
use ha_ems.Domain.Models.{Capabilities, DevicePolicy, PolicyMode, PolicyReason}
use ha_ems.Domain.Capabilities.{clamp_target_w_for_capabilities, capability_block_reason}
use ha_ems.Domain.EvPower.{
  EvPowerError, EvCharger, ev_min_current_a_from_min_absorb_w, ev_power_w_to_current_a,
}
use ha_ems.Writers.Services.{
  Store, HomeAssistant, Writer, done, raised, ev_power, set_number_if, set_boolean_if, ◌>>=◌, ◌>>◌,
  pure,
}
use ha_ems.Writers.Policies.{
  WriterContext, WriterAction, WriterReason, WriterTrace, skipped, reason_or, device_policy_by_id,
  capability_device_config_for_id,
}
use ha_ems.Writers.Relay.{is_skip_mode}

-- get_int of a current: whole amperes, towards zero.
abbrev pub whole_amperes : ℤ → ℤ
whole_amperes x = sub_ℕ (pos_part x / 1000 * 1000) (neg_part x / 1000 * 1000)

abbrev pub is_hard_off_mode : PolicyMode → Bool
is_hard_off_mode PolicyMode.hard_off = true
is_hard_off_mode _ = false

abbrev pub is_restore_min_mode : PolicyMode → Bool
is_restore_min_mode PolicyMode.restore_min = true
is_restore_min_mode _ = false

-- `ev_device_mode` after the capability check.
abbrev pub effective_mode : Capabilities → DevicePolicy → PolicyMode
effective_mode c policy =
    if is_some (capability_block_reason c policy.target_w) then PolicyMode.hard_off else policy.mode

-- `target_current_a` of a policy that is not skipped.
unfoldable pub target_current_a : EvCharger → Capabilities → DevicePolicy → EvPowerError ⊎ ℤ
target_current_a charger c policy =
    let target_w = clamp_target_w_for_capabilities c policy.target_w in
    if ltb_ℤ (pos 0) target_w && not (is_hard_off_mode (effective_mode c policy))
    then ev_power_w_to_current_a target_w charger (pos_part c.min_absorb_w)
        (pos_part c.max_absorb_w)
    else inr (pos 0)

-- What is to be done with the two entities: the switch is turned to a state or left, and the
-- current is set.
pub record EvCommand : Type 0 where
  pub switch_to : Option Bool
  pub current_a : ℤ

unfoldable pub ev_command : PolicyMode → ℕ → ℤ → EvCommand
ev_command mode min_current target_current =
    if ltb_ℤ (pos 0) target_current
    then record { switch_to = some true; current_a = target_current }
    else if is_restore_min_mode mode
    then record { switch_to = none; current_a = pos min_current }
    else record { switch_to = some false; current_a = pos min_current }

abbrev pub needs_switch : Option Bool → Bool → Bool
needs_switch none is_on = false
needs_switch (some true) is_on = not is_on
needs_switch (some false) is_on = is_on

abbrev pub switch_value : Option Bool → Bool
switch_value none = false
switch_value (some is_on) = is_on

-- The two conditional calls, the switch first: whether each was made.
unfoldable pub apply_ev_command :
    HomeAssistant → String → String → EvCommand → Bool → ℤ → Writer (Bool × Bool)
unfolding set_boolean_if set_number_if
apply_ev_command ha enabled_entity current_entity command current_on current_level = do
  enabled_changed ←
      set_boolean_if ha (needs_switch command.switch_to current_on) enabled_entity
        (switch_value command.switch_to)
  current_changed ←
      set_number_if ha (not (eqb_ℤ current_level command.current_a)) current_entity
        command.current_a
  pure (enabled_changed, current_changed)

-- The trace of the branch that was taken.
unfoldable pub ev_trace : PolicyMode → ℤ → Option PolicyReason → Bool × Bool → WriterTrace
ev_trace mode target_current blocked (enabled_changed, current_changed) =
    let changed = enabled_changed || current_changed in
    if ltb_ℤ (pos 0) target_current
    then record {
      action = WriterAction.enable_and_set_current;
      reason =
          reason_or blocked
            (if changed then WriterReason.state_changed else WriterReason.already_matching);
      written = changed;
    }
    else if is_restore_min_mode mode
    then record {
      action = WriterAction.restore_min_current;
      reason = reason_or blocked WriterReason.restore_min;
      written = changed;
    }
    else if is_hard_off_mode mode
    then record {
      action = WriterAction.hard_off;
      reason = reason_or blocked WriterReason.hard_off;
      written = changed;
    }
    else if changed
    then record {
      action = WriterAction.disable_and_restore_min_current;
      reason = reason_or blocked WriterReason.target_zero_disable;
      written = true;
    }
    else skipped (reason_or blocked WriterReason.already_disabled)

-- The part behind the checks. A current below 0 is the mode `skip`.
unfoldable pub set_ev_current :
    HomeAssistant → EvCharger → String → String → Capabilities → DevicePolicy → Writer WriterTrace
set_ev_current ha charger enabled_entity current_entity c policy s =
    elim (ev_min_current_a_from_min_absorb_w (pos_part c.min_absorb_w) charger) [
      | inl e ↦ raised (ev_power e) s
      | inr min_current ↦
          if is_skip_mode policy.mode
          then done (skipped WriterReason.policy_skip) s
          else elim (target_current_a charger c policy) [
            | inl e ↦ raised (ev_power e) s
            | inr target_current ↦
                let mode = effective_mode c policy in
                let blocked = capability_block_reason c policy.target_w in
                (do
                  changed ←
                      apply_ev_command ha enabled_entity current_entity
                        (ev_command mode min_current target_current) (s.switch enabled_entity)
                        (whole_amperes (s.number current_entity))
                  pure (ev_trace mode target_current blocked changed))
                  s
          ]
    ]

unfoldable pub write_ev_actuator : HomeAssistant → WriterContext → String → Writer WriterTrace
write_ev_actuator ha ctx device_id s = elim (device_policy_by_id ctx device_id) [
  | none ↦ done (skipped WriterReason.missing_device_policy) s
  | some policy ↦ elim (ctx.entities_of device_id).enabled [
    | none ↦ done (skipped WriterReason.missing_actuator_entity) s
    | some enabled_entity ↦ elim (ctx.entities_of device_id).current_a [
      | none ↦ done (skipped WriterReason.missing_actuator_entity) s
      | some current_entity ↦ elim (capability_device_config_for_id ctx.cfg device_id) [
        | none ↦ done (skipped WriterReason.missing_device_config) s
        | some c ↦
            set_ev_current ha (ctx.charger_of device_id) enabled_entity current_entity c policy s
      ]
    ]
  ]
]
