-- ===== src/Writers/Loop/Untouched.antt =====
-- Theorems on Writers/Loop: the entities that a run leaves alone.
use ha_ems.Prelude.{
  Bool, true, false, Option, none, some, List, [], ◌∷◌, ◌≡◌, subst, ℤ, eqb_ℤ, pos_part, String,
  same, All, not, ◌&&◌,
}
use ha_ems.Domain.Models.{Device, DeviceKind, Capabilities, DevicePolicy}
use ha_ems.Domain.Capabilities.{clamp_target_w_for_capabilities, capability_block_reason}
use ha_ems.Domain.Profiles.{is_manual}
use ha_ems.Domain.EvPower.{EvCharger, ev_min_current_a_from_min_absorb_w}
use ha_ems.Writers.Services.{Store, HomeAssistant, CarriesOut, pure, set_number, set_boolean}
use ha_ems.Writers.Services.Effects.{
  KeepsEntity, IsSame, IsSame-refl, bind-KeepsEntity, then-IsSame, if-IsSame, option-IsSame,
  result-IsSame, set_number_if-KeepsEntity, set_boolean_if-KeepsEntity, pure-KeepsEntity,
  set_number-KeepsEntity, set_boolean-KeepsEntity, store_of,
}
use ha_ems.Writers.Policies.{WriterContext, device_policy_by_id, capability_device_config_for_id}
use ha_ems.Writers.Relay.{switch_relay, write_relay_actuator, wants_on, is_skip_mode}
use ha_ems.Writers.Battery.{
  move_setpoint, write_battery_actuator, in_writer_deadband, writer_deadband_w, writer_ramp_w,
  next_setpoint,
}
use ha_ems.Writers.Ev.{
  set_ev_current, write_ev_actuator, apply_ev_command, EvCommand, ev_trace, needs_switch,
  switch_value, ev_command, whole_amperes, effective_mode, target_current_a,
}
use ha_ems.Writers.Loop.{WriterTraces, write_device, write_devices, ems_actuator_writers_loop}

-- An entity that the adapter does not map to an actuator.
abbrev pub is_mapped_to : Option String → String → Bool
is_mapped_to none x = false
is_mapped_to (some entity) x = same x entity

pub record IsNoActuator (ctx : WriterContext) (x device_id : String) : Type 0 where
  pub no_target : is_mapped_to (ctx.entities_of device_id).target_w x ≡ false
  pub no_switch : is_mapped_to (ctx.entities_of device_id).enabled x ≡ false
  pub no_current : is_mapped_to (ctx.entities_of device_id).current_a x ≡ false

mapped_apart :
    (x : String) (o : Option String) {entity : String}
    → o ≡ some entity
    → is_mapped_to o x ≡ false
    → same x entity ≡ false
mapped_apart x o e h = subst (λ p. is_mapped_to p x ≡ false) e h

module _ (ha : HomeAssistant) (carries : CarriesOut ha) (x : String) where
  switch_relay-KeepsEntity :
      (entity : String) (c : Capabilities) (p : DevicePolicy)
      → same x entity ≡ false
      → KeepsEntity x (switch_relay ha entity c p)
  unfolding KeepsEntity switch_relay store_of
  switch_relay-KeepsEntity entity c p apart s =
      if-IsSame (is_skip_mode p.mode) _ _ (IsSame-refl x s) (
        if-IsSame (wants_on c p && not (s.switch entity)) _ _
          (then-IsSame (set_boolean ha entity true) _ s
            (set_boolean-KeepsEntity ha carries x entity true apart))
          (if-IsSame (not (wants_on c p) && s.switch entity) _ _
            (then-IsSame (set_boolean ha entity false) _ s
              (set_boolean-KeepsEntity ha carries x entity false apart))
            (IsSame-refl x s)))

  write_relay-KeepsEntity :
      (ctx : WriterContext) (device_id : String)
      → IsNoActuator ctx x device_id
      → KeepsEntity x (write_relay_actuator ha ctx device_id)
  unfolding KeepsEntity write_relay_actuator store_of
  write_relay-KeepsEntity ctx device_id h s =
      option-IsSame (device_policy_by_id ctx device_id) _ _ (IsSame-refl x s) (λ p _.
        option-IsSame (ctx.entities_of device_id).enabled _ _ (IsSame-refl x s) (λ entity e.
          option-IsSame (capability_device_config_for_id ctx.cfg device_id) _ _ (IsSame-refl x s)
            (λ c _.
              switch_relay-KeepsEntity entity c p
                (mapped_apart x (ctx.entities_of device_id).enabled e h.no_switch) s)))

  move_setpoint-KeepsEntity :
      (ctx : WriterContext) (entity : String) (c : Capabilities) (target : ℤ)
      → same x entity ≡ false
      → KeepsEntity x (move_setpoint ha ctx entity c target)
  unfolding KeepsEntity move_setpoint store_of
  move_setpoint-KeepsEntity ctx entity c target apart s =
      if-IsSame
        (in_writer_deadband (writer_deadband_w ctx.cfg.global_config) (s.number entity)
          (clamp_target_w_for_capabilities c target))
        _ _ (IsSame-refl x s)
        (then-IsSame
          (set_number ha entity (
            next_setpoint (writer_ramp_w ctx.cfg.global_config) (s.number entity)
              (clamp_target_w_for_capabilities c target)))
          _ s (set_number-KeepsEntity ha carries x entity _ apart))

  write_battery-KeepsEntity :
      (ctx : WriterContext) (device_id : String)
      → IsNoActuator ctx x device_id
      → KeepsEntity x (write_battery_actuator ha ctx device_id)
  unfolding KeepsEntity write_battery_actuator store_of
  write_battery-KeepsEntity ctx device_id h s =
      if-IsSame (is_manual ctx.control) _ _ (IsSame-refl x s) (
        option-IsSame (device_policy_by_id ctx device_id) _ _ (IsSame-refl x s) (λ p _.
          if-IsSame (not p.enabled) _ _ (IsSame-refl x s) (
            option-IsSame (capability_device_config_for_id ctx.cfg device_id) _ _ (IsSame-refl x s)
              (λ c _.
                option-IsSame (ctx.entities_of device_id).target_w _ _ (IsSame-refl x s)
                  (λ entity e.
                    move_setpoint-KeepsEntity ctx entity c p.target_w
                      (mapped_apart x (ctx.entities_of device_id).target_w e h.no_target) s)))))

  apply_ev_command-KeepsEntity :
      (enabled_entity current_entity : String) (command : EvCommand) (is_on : Bool) (level : ℤ)
      → same x enabled_entity ≡ false
      → same x current_entity ≡ false
      → KeepsEntity x (apply_ev_command ha enabled_entity current_entity command is_on level)
  unfolding apply_ev_command
  apply_ev_command-KeepsEntity enabled_entity current_entity command is_on level apart apart' =
      bind-KeepsEntity x _ _
        (set_boolean_if-KeepsEntity ha carries (needs_switch command.switch_to is_on) x
          enabled_entity (switch_value command.switch_to) apart)
        (λ a.
          bind-KeepsEntity x _ _
            (set_number_if-KeepsEntity ha carries (not (eqb_ℤ level command.current_a)) x
              current_entity command.current_a apart')
            (λ b. pure-KeepsEntity x (a, b)))

  set_ev_current-KeepsEntity :
      (charger : EvCharger) (enabled_entity current_entity : String) (c : Capabilities)
      (p : DevicePolicy)
      → same x enabled_entity ≡ false
      → same x current_entity ≡ false
      → KeepsEntity x (set_ev_current ha charger enabled_entity current_entity c p)
  unfolding KeepsEntity set_ev_current store_of
  set_ev_current-KeepsEntity charger enabled_entity current_entity c p apart apart' s =
      result-IsSame (ev_min_current_a_from_min_absorb_w (pos_part c.min_absorb_w) charger) _ _
        (λ _. IsSame-refl x s)
        (λ low. if-IsSame (is_skip_mode p.mode) _ _ (IsSame-refl x s) (
          result-IsSame (target_current_a charger c p) _ _ (λ _. IsSame-refl x s)
            (λ target.
              let command = ev_command (effective_mode c p) low target in
              let trace =
                ev_trace (effective_mode c p) target (capability_block_reason c p.target_w) in
              let is_on = s.switch enabled_entity in
              let level = whole_amperes (s.number current_entity) in
              bind-KeepsEntity x
                (apply_ev_command ha enabled_entity current_entity command is_on level)
                (λ changed. pure (trace changed))
                (apply_ev_command-KeepsEntity enabled_entity current_entity command is_on level
                  apart apart')
                (λ changed. pure-KeepsEntity x (trace changed)) s)))

  write_ev-KeepsEntity :
      (ctx : WriterContext) (device_id : String)
      → IsNoActuator ctx x device_id
      → KeepsEntity x (write_ev_actuator ha ctx device_id)
  unfolding KeepsEntity write_ev_actuator store_of
  write_ev-KeepsEntity ctx device_id h s =
      option-IsSame (device_policy_by_id ctx device_id) _ _ (IsSame-refl x s) (λ p _.
        option-IsSame (ctx.entities_of device_id).enabled _ _ (IsSame-refl x s) (λ enabled_entity e.
          option-IsSame (ctx.entities_of device_id).current_a _ _ (IsSame-refl x s)
            (λ current_entity e'.
              option-IsSame (capability_device_config_for_id ctx.cfg device_id) _ _
                (IsSame-refl x s)
                (λ c _.
                  set_ev_current-KeepsEntity (ctx.charger_of device_id) enabled_entity
                    current_entity c p
                    (mapped_apart x (ctx.entities_of device_id).enabled e h.no_switch)
                    (mapped_apart x (ctx.entities_of device_id).current_a e' h.no_current) s))))

  write_device-KeepsEntity :
      (ctx : WriterContext) (kind : DeviceKind) (device_id : String) (traces : WriterTraces)
      → IsNoActuator ctx x device_id
      → KeepsEntity x (write_device ha ctx kind device_id traces)
  unfolding write_device
  write_device-KeepsEntity ctx DeviceKind.battery device_id traces h =
      bind-KeepsEntity x _ _ (write_battery-KeepsEntity ctx device_id h) (λ _. pure-KeepsEntity x _)
  write_device-KeepsEntity ctx DeviceKind.ev_charger device_id traces h =
      bind-KeepsEntity x _ _ (write_ev-KeepsEntity ctx device_id h) (λ _. pure-KeepsEntity x _)
  write_device-KeepsEntity ctx DeviceKind.relay device_id traces h =
      bind-KeepsEntity x _ _ (write_relay-KeepsEntity ctx device_id h) (λ _. pure-KeepsEntity x _)
  write_device-KeepsEntity ctx DeviceKind.unrecognized device_id traces h =
      pure-KeepsEntity x traces

  pub write_devices-KeepsEntity :
      (ctx : WriterContext) (ds : List Device) (traces : WriterTraces)
      → All (λ d. IsNoActuator ctx x d.device_id) ds
      → KeepsEntity x (write_devices ha ctx ds traces)
  unfolding write_devices
  write_devices-KeepsEntity ctx [] traces h = pure-KeepsEntity x traces
  write_devices-KeepsEntity ctx (d ∷ ds) traces (h, hs) =
      bind-KeepsEntity x _ _ (write_device-KeepsEntity ctx d.kind d.device_id traces h)
        (λ traces'. write_devices-KeepsEntity ctx ds traces' hs)

  -- Where Home Assistant carries out its services, a run of the writers changes no entity but those
  -- that the adapter maps to actuators of the configured devices, also when a writer raises.
  pub loop-KeepsEntity :
      (ctx : WriterContext)
      → All (λ d. IsNoActuator ctx x d.device_id) ctx.cfg.devices
      → (s : Store) → IsSame x s (store_of (ems_actuator_writers_loop ha (some ctx) s))
  unfolding ems_actuator_writers_loop KeepsEntity
  loop-KeepsEntity ctx h =
      bind-KeepsEntity x _ _ (write_devices-KeepsEntity ctx ctx.cfg.devices _ h)
        (λ traces. pure-KeepsEntity x (some traces))
