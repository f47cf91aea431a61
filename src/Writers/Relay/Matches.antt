-- ===== src/Writers/Relay/Matches.antt =====
-- Theorems on Writers/Relay: the switch after a run of the writer.
use ha_ems.Prelude.{true, false, some, ◌≡◌, refl, String, Bool-cases, inl, inr}
use ha_ems.Domain.Models.{Capabilities, DevicePolicy}
use ha_ems.Writers.Services.{
  Store, HomeAssistant, CarriesOut, set_boolean, domain, is_switch_domain,
}
use ha_ems.Writers.Services.Effects.{Returns, returns_more, returns_eq, bind_done}
use ha_ems.Writers.Services.Calls.{set_boolean_done}
use ha_ems.Writers.Policies.{WriterContext, device_policy_by_id, capability_device_config_for_id}
use ha_ems.Writers.Relay.{is_skip_mode, wants_on, switch_relay, write_relay_actuator}

module _ (ha : HomeAssistant) (carries : CarriesOut ha) where
  switch_relay_unchanged :
      (entity : String) (c : Capabilities) (p : DevicePolicy) (s : Store)
      → is_skip_mode p.mode ≡ false
      → s.switch entity ≡ wants_on c p
      → Returns (switch_relay ha entity c p s) (λ t s'. (t.written ≡ false) × (s' ≡ s))
  unfolding switch_relay Returns
  switch_relay_unchanged entity c p s acts settled = elim (Bool-cases (wants_on c p)) [
    | inl w ↦ rw (acts, settled, w) (refl, refl)
    | inr w ↦ rw (acts, settled, w) (refl, refl)
  ]

  switch_relay_settles :
      (entity : String) (c : Capabilities) (p : DevicePolicy) (s : Store)
      → is_skip_mode p.mode ≡ false
      → is_switch_domain (domain entity) ≡ true
      → Returns (switch_relay ha entity c p s) (λ t s'. s'.switch entity ≡ wants_on c p)
  unfolding switch_relay Returns
  switch_relay_settles entity c p s acts known =
      let (turned_on, on) = set_boolean_done ha carries entity true s known in
      let (turned_off, off) = set_boolean_done ha carries entity false s known in
      elim (Bool-cases (wants_on c p)) [
        | inl w ↦ elim (Bool-cases (s.switch entity)) [
          | inl o ↦ rw (acts, w, o) o
          | inr o ↦
              rw (acts, w, o)
                (returns_eq _ (bind_done (set_boolean ha entity true) _ s turned_on) on)
        ]
        | inr w ↦ elim (Bool-cases (s.switch entity)) [
          | inl o ↦
              rw (acts, w, o)
                (returns_eq _ (bind_done (set_boolean ha entity false) _ s turned_off) off)
          | inr o ↦ rw (acts, w, o) o
        ]
      ]

  write_relay_runs :
      (ctx : WriterContext) (device_id : String) {p : DevicePolicy} {entity : String}
      {c : Capabilities}
      → device_policy_by_id ctx device_id ≡ some p
      → (ctx.entities_of device_id).enabled ≡ some entity
      → capability_device_config_for_id ctx.cfg device_id ≡ some c
      → (s : Store) → write_relay_actuator ha ctx device_id s ≡ switch_relay ha entity c p s
  unfolding write_relay_actuator
  write_relay_runs ctx device_id policy mapped config s =
      rw (policy, mapped, config, write_relay_actuator)

  -- Where Home Assistant carries out its services, a run of the relay writer for a device with a
  -- policy that does not skip it, an entity of a supported domain and a configuration ends without
  -- an error, and the switch then has the state that the policy wants within the capabilities. A
  -- second run writes nothing.
  pub write_relay_settles :
      (ctx : WriterContext) (device_id : String) (s : Store) {p : DevicePolicy} {entity : String}
      {c : Capabilities}
      → device_policy_by_id ctx device_id ≡ some p
      → (ctx.entities_of device_id).enabled ≡ some entity
      → capability_device_config_for_id ctx.cfg device_id ≡ some c
      → is_skip_mode p.mode ≡ false
      → is_switch_domain (domain entity) ≡ true
      → Returns (write_relay_actuator ha ctx device_id s) (λ t s'.
        (s'.switch entity ≡ wants_on c p)
        × Returns
            (write_relay_actuator ha ctx device_id s')
            (λ t' s''. (t'.written ≡ false) × (s'' ≡ s')))
  write_relay_settles ctx device_id s {p = p} {entity = entity} {c = c} policy mapped config acts
        known =
      let runs = write_relay_runs ctx device_id policy mapped config in
      returns_eq _ (runs s) (
        returns_more (switch_relay ha entity c p s) (switch_relay_settles entity c p s acts known)
          (λ t s' settled.
            (settled, returns_eq _ (runs s') (switch_relay_unchanged entity c p s' acts settled))))
