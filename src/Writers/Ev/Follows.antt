-- ===== src/Writers/Ev/Follows.antt =====
-- Theorems on Writers/Ev: the switch and the current after a run of the writer.
use ha_ems.Prelude.{
  ℕ, Bool, true, false, not, Option, none, some, ◌≡◌, refl, ap, sym, ◌∙◌, String, ℤ, pos, pos_part,
  ltb_ℤ, eqb_ℤ, if◌then◌else◌, arith, inr,
}
use ha_ems.Domain.Models.{Capabilities, DevicePolicy, PolicyMode}
use ha_ems.Domain.Capabilities.{capability_block_reason}
use ha_ems.Domain.EvPower.{EvCharger, ev_min_current_a_from_min_absorb_w}
use ha_ems.Writers.Services.{
  Store, HomeAssistant, CarriesOut, domain, is_switch_domain, is_number_domain, set_boolean_if,
  set_number_if, ◌>>=◌, pure,
}
use ha_ems.Writers.Services.Effects.{Returns, returns_eq, bind_done, returns_bind}
use ha_ems.Writers.Services.Calls.{set_boolean_if_done, set_number_if_done}
use ha_ems.Writers.Policies.{
  WriterContext, WriterTrace, device_policy_by_id, capability_device_config_for_id,
}
use ha_ems.Writers.Relay.{is_skip_mode}
use ha_ems.Writers.Ev.{
  EvCommand, ev_command, needs_switch, switch_value, apply_ev_command, whole_amperes,
  effective_mode, is_restore_min_mode, target_current_a, ev_trace, set_ev_current,
  write_ev_actuator,
}

-- The states of the two entities after a command, from the state of the switch before it.
abbrev pub switch_after : Option Bool → Bool → Bool
switch_after none is_on = is_on
switch_after (some v) is_on = v

needs_switch_lem :
    (o : Option Bool) (is_on : Bool)
    → (if needs_switch o is_on then switch_value o else is_on) ≡ switch_after o is_on
needs_switch_lem none is_on = refl
needs_switch_lem (some true) true = refl
needs_switch_lem (some true) false = refl
needs_switch_lem (some false) true = refl
needs_switch_lem (some false) false = refl

needs_current_lem : (level v : ℤ) → (if not (eqb_ℤ level v) then v else level) ≡ v
needs_current_lem level v = ground arith

-- What the two entities are to be after a run.
abbrev pub switch_wanted : PolicyMode → ℤ → Bool → Bool
switch_wanted mode target is_on =
    if ltb_ℤ (pos 0) target then true else if is_restore_min_mode mode then is_on else false

abbrev pub current_wanted : ℕ → ℤ → ℤ
current_wanted low target = if ltb_ℤ (pos 0) target then target else pos low

ev_command_lem :
    (mode : PolicyMode) (low : ℕ) (target : ℤ) (is_on : Bool)
    → (switch_after (ev_command mode low target).switch_to is_on ≡ switch_wanted mode target is_on)
      × ((ev_command mode low target).current_a ≡ current_wanted low target)
unfolding ev_command
ev_command_lem mode low target is_on = ground arith

module _ (ha : HomeAssistant) (carries : CarriesOut ha) where
  apply_ev_command_done :
      (enabled_entity current_entity : String) (command : EvCommand) (s : Store)
      → is_switch_domain (domain enabled_entity) ≡ true
      → is_number_domain (domain current_entity) ≡ true
      → whole_amperes (s.number current_entity) ≡ s.number current_entity
      → Returns
          (apply_ev_command ha enabled_entity current_entity command
            (s.switch enabled_entity)
            (whole_amperes (s.number current_entity))
            s)
          (λ _ s'.
            (s'.switch enabled_entity ≡ switch_after command.switch_to (s.switch enabled_entity))
            × (s'.number current_entity ≡ command.current_a))
  unfolding apply_ev_command Returns
  apply_ev_command_done enabled_entity current_entity command s known known' whole =
      let is_on = s.switch enabled_entity in
      let level = whole_amperes (s.number current_entity) in
      let turns = needs_switch command.switch_to is_on in
      let sets = not (eqb_ℤ level command.current_a) in
      let (s1, ok, on, numbers) =
        set_boolean_if_done ha carries turns enabled_entity (switch_value command.switch_to) s
          known in
      let (s2, ok', set, switches) =
        set_number_if_done ha carries sets current_entity command.current_a s1 known' in
      returns_eq _
        (bind_done (set_boolean_if ha turns enabled_entity (switch_value command.switch_to)) _ s ok
          ∙ bind_done (set_number_if ha sets current_entity command.current_a)
              (λ b. pure (turns, b)) s1 ok')
        (
          switches enabled_entity ∙ on ∙ needs_switch_lem command.switch_to is_on,
          set
              ∙ ap (λ x. if sets then command.current_a else x) (numbers current_entity ∙ sym whole)
              ∙ needs_current_lem level command.current_a,
        )

  -- The two calls and the trace.
  command_settles :
      (enabled_entity current_entity : String) (mode : PolicyMode) (low : ℕ) (target : ℤ)
      (trace : Bool × Bool → WriterTrace) (s : Store)
      → is_switch_domain (domain enabled_entity) ≡ true
      → is_number_domain (domain current_entity) ≡ true
      → whole_amperes (s.number current_entity) ≡ s.number current_entity
      → Returns
          ((apply_ev_command ha enabled_entity current_entity
                (ev_command mode low target)
                (s.switch enabled_entity)
                (whole_amperes (s.number current_entity))
              >>= λ changed. pure (trace changed))
            s)
          (λ t s'.
            (s'.switch enabled_entity ≡ switch_wanted mode target (s.switch enabled_entity))
            × (s'.number current_entity ≡ current_wanted low target))
  unfolding Returns
  command_settles enabled_entity current_entity mode low target trace s known known' whole =
      let command = ev_command mode low target in
      let is_on = s.switch enabled_entity in
      let (switched, set) = ev_command_lem mode low target is_on in
      returns_bind
        (λ _ s'.
          (s'.switch enabled_entity ≡ switch_after command.switch_to is_on)
          × (s'.number current_entity ≡ command.current_a))
        (λ t s'.
          (s'.switch enabled_entity ≡ switch_wanted mode target is_on)
          × (s'.number current_entity ≡ current_wanted low target))
        (apply_ev_command ha enabled_entity current_entity command is_on
          (whole_amperes (s.number current_entity)))
        (λ changed. pure (trace changed)) s
        (apply_ev_command_done enabled_entity current_entity command s known known' whole)
        (λ a s' (on, level). (on ∙ switched, level ∙ set))

  set_ev_current_runs :
      (charger : EvCharger) (enabled_entity current_entity : String) (c : Capabilities)
      (p : DevicePolicy) (s : Store) {low : ℕ} {target : ℤ}
      → ev_min_current_a_from_min_absorb_w (pos_part c.min_absorb_w) charger ≡ inr low
      → target_current_a charger c p ≡ inr target
      → is_skip_mode p.mode ≡ false
      → set_ev_current ha charger enabled_entity current_entity c p s
        ≡ (apply_ev_command ha enabled_entity current_entity
                (ev_command (effective_mode c p) low target)
                (s.switch enabled_entity)
                (whole_amperes (s.number current_entity))
              >>= λ changed. pure (
                  ev_trace
                    (effective_mode c p)
                    target
                    (capability_block_reason c p.target_w)
                    changed))
            s
  unfolding set_ev_current
  set_ev_current_runs charger enabled_entity current_entity c p s lowest wanted acts =
      rw (lowest, acts, wanted, set_ev_current)

  write_ev_runs :
      (ctx : WriterContext) (device_id : String) {p : DevicePolicy}
      {enabled_entity current_entity : String} {c : Capabilities}
      → device_policy_by_id ctx device_id ≡ some p
      → (ctx.entities_of device_id).enabled ≡ some enabled_entity
      → (ctx.entities_of device_id).current_a ≡ some current_entity
      → capability_device_config_for_id ctx.cfg device_id ≡ some c
      → (s : Store)
      → write_ev_actuator ha ctx device_id s
        ≡ set_ev_current ha (ctx.charger_of device_id) enabled_entity current_entity c p s
  unfolding write_ev_actuator
  write_ev_runs ctx device_id policy mapped mapped' config s =
      rw (policy, mapped, mapped', config, write_ev_actuator)

  -- Where Home Assistant carries out its services, a run of the EV writer for a device with a
  -- policy that does not skip it, two entities of supported domains, a configuration whose
  -- conversions succeed, and a current that is stored in whole amperes, ends without an error. The
  -- switch is then on where a current is wanted, as before where the minimum is to be restored, and
  -- off otherwise; the current is the wanted one, or the minimum.
  pub write_ev_settles :
      (ctx : WriterContext) (device_id : String) (s : Store) {p : DevicePolicy}
      {enabled_entity current_entity : String} {c : Capabilities} {low : ℕ} {target : ℤ}
      → device_policy_by_id ctx device_id ≡ some p
      → (ctx.entities_of device_id).enabled ≡ some enabled_entity
      → (ctx.entities_of device_id).current_a ≡ some current_entity
      → capability_device_config_for_id ctx.cfg device_id ≡ some c
      → ev_min_current_a_from_min_absorb_w (pos_part c.min_absorb_w) (ctx.charger_of device_id)
        ≡ inr low
      → target_current_a (ctx.charger_of device_id) c p ≡ inr target
      → is_skip_mode p.mode ≡ false
      → is_switch_domain (domain enabled_entity) ≡ true
      → is_number_domain (domain current_entity) ≡ true
      → whole_amperes (s.number current_entity) ≡ s.number current_entity
      → Returns (write_ev_actuator ha ctx device_id s) (λ t s'.
        (s'.switch enabled_entity
          ≡ switch_wanted (effective_mode c p) target (s.switch enabled_entity))
        × (s'.number current_entity ≡ current_wanted low target))
  write_ev_settles ctx device_id s {p = p} {enabled_entity = enabled_entity}
        {current_entity = current_entity} {c = c} policy mapped mapped' config lowest wanted acts
        known known' whole =
      returns_eq _
        (write_ev_runs ctx device_id policy mapped mapped' config s
          ∙ set_ev_current_runs (ctx.charger_of device_id) enabled_entity current_entity c p s
              lowest wanted acts)
        (command_settles enabled_entity current_entity (effective_mode c p) _ _ _ s known known'
          whole)
