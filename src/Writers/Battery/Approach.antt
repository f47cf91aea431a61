-- ===== src/Writers/Battery/Approach.antt =====
-- Theorems on Writers/Battery: the set points that are written, and where they lead.
use ha_ems.Prelude.{
  ℕ, zero, suc, ◌+◌, ◌*◌, ◌≤◌, ◌<◌, Bool, true, false, some, ◌≡◌, String, ℤ, pos, pos_part,
  neg_part, neg, magnitude, ◌+ℤ◌, ◌-ℤ◌, ◌≤ℤ◌, min_ℤ, max_ℤ, round_to, round_div_bounds, ◌⊎◌,
  +ℤ_parts, -ℤ_parts, parts_disjoint, arith, Bool-cases, inl, inr,
}
use ha_ems.Domain.Models.{Capabilities, DevicePolicy}
use ha_ems.Domain.Profiles.{is_manual}
use ha_ems.Domain.Capabilities.{clamp_target_w_for_capabilities}
use ha_ems.Writers.Services.{
  Store, HomeAssistant, CarriesOut, Writer, ◌>>=◌, pure, set_number, domain, is_number_domain,
}
use ha_ems.Writers.Services.Effects.{Returns, returns_eq, returns_bind, bind_done}
use ha_ems.Writers.Services.Calls.{set_number_done}
use ha_ems.Writers.Policies.{
  WriterContext, WriterTrace, device_policy_by_id, capability_device_config_for_id,
}
use ha_ems.Writers.Battery.{
  next_setpoint, in_writer_deadband, writer_deadband_w, writer_ramp_w, move_setpoint,
  write_battery_actuator,
}

round_to_grid :
    (z : ℤ)
    → (pos_part (round_to 50000 z) + neg_part z ≤ pos_part z + neg_part (round_to 50000 z) + 25000)
      × (pos_part z + neg_part (round_to 50000 z)
          ≤ pos_part (round_to 50000 z) + neg_part z + 25000)
unfolding round_to
round_to_grid z =
    ground (arith, round_div_bounds 50000 (pos_part z), round_div_bounds 50000 (neg_part z))

-- A step limited to a ramp is the whole difference, or the ramp in its direction.
limited_step :
    (d : ℤ) (ramp : ℕ)
    → let step = max_ℤ (min_ℤ d (pos ramp)) (neg (pos ramp)) in
      ((d ≤ℤ step) × (step ≤ℤ d))
      ⊎ ((pos ramp ≤ℤ d) × (pos_part step ≡ ramp) × (neg_part step ≡ 0))
      ⊎ ((pos_part d + ramp ≤ neg_part d) × (pos_part step ≡ 0) × (neg_part step ≡ ramp))
unfolding min_ℤ max_ℤ neg
limited_step d ramp = ground arith

-- A difference of up to the ramp and `k` is brought to `k`, but for the 25 W of the grid.
next_setpoint_closer :
    (ramp : ℕ) (current target : ℤ) (k : ℕ)
    → magnitude (target -ℤ current) ≤ ramp + k
    → magnitude (target -ℤ next_setpoint (pos ramp) current target) ≤ k + 25000
unfolding next_setpoint
next_setpoint_closer ramp current target k h =
    let d = target -ℤ current in
    let step = max_ℤ (min_ℤ d (pos ramp)) (neg (pos ramp)) in
    let moved = current +ℤ step in
    let next = round_to 50000 moved in
    omega (
      arith,
      limited_step d ramp,
      -ℤ_parts target current,
      +ℤ_parts current step,
      round_to_grid moved,
      -ℤ_parts target next,
      parts_disjoint d,
      parts_disjoint (target -ℤ next),
      h,
    )

-- A set point stays between the present one and the target, but for the 25 W of the grid.
pub next_setpoint_bounds :
    (ramp : ℕ) (current target low high : ℤ)
    → low ≤ℤ current
    → low ≤ℤ target
    → current ≤ℤ high
    → target ≤ℤ high
    → let next = next_setpoint (pos ramp) current target in
      (low ≤ℤ next +ℤ pos 25000) × (next ≤ℤ high +ℤ pos 25000)
unfolding next_setpoint
next_setpoint_bounds ramp current target low high h1 h2 h3 h4 =
    let d = target -ℤ current in
    let step = max_ℤ (min_ℤ d (pos ramp)) (neg (pos ramp)) in
    let moved = current +ℤ step in
    let next = round_to 50000 moved in
    omega (
      arith,
      limited_step d ramp,
      -ℤ_parts target current,
      +ℤ_parts current step,
      round_to_grid moved,
      +ℤ_parts next (pos 25000),
      +ℤ_parts high (pos 25000),
      h1,
      h2,
      h3,
      h4,
    )

-- `n` runs of a writer.
pub repeat_writer : {A : Type 0} → ℕ → Writer A → Writer (Unit {0})
repeat_writer zero m = pure tt
repeat_writer (suc n) m = m >>= λ _. repeat_writer n m

module _ (ha : HomeAssistant) (carries : CarriesOut ha) (ctx : WriterContext) (entity : String)
    (c : Capabilities) (policy_w : ℤ) where
  target : ℤ
  target = clamp_target_w_for_capabilities c policy_w

  is_near : Store → Bool
  unfolding target
  is_near s = in_writer_deadband (writer_deadband_w ctx.cfg.global_config) (s.number entity) target

  move_setpoint_stays :
      (s : Store)
      → is_near s ≡ true
      → Returns (move_setpoint ha ctx entity c policy_w s) (λ t s'. is_near s' ≡ true)
  unfolding move_setpoint Returns is_near
  move_setpoint_stays s h = rw h h

  move_setpoint_moves :
      (s : Store)
      → is_near s ≡ false
      → is_number_domain (domain entity) ≡ true
      → Returns (move_setpoint ha ctx entity c policy_w s) (λ t s'.
        s'.number entity
        ≡ next_setpoint (writer_ramp_w ctx.cfg.global_config) (s.number entity) target)
  unfolding move_setpoint Returns is_near
  move_setpoint_moves s h known =
      let next = next_setpoint (writer_ramp_w ctx.cfg.global_config) (s.number entity) target in
      let (ok, moved) = set_number_done ha carries entity next s known in
      rw (h) (returns_eq _ (bind_done (set_number ha entity next) _ s ok) moved)

  module _ (m : Writer WriterTrace)
      (runs : (s : Store) → m s ≡ move_setpoint ha ctx entity c policy_w s) where
    near_forever :
        (n : ℕ) (s : Store)
        → is_near s ≡ true
        → Returns (repeat_writer n m s) (λ _ s'. is_near s' ≡ true)
    unfolding repeat_writer Returns
    near_forever zero s h = h
    near_forever (suc n) s h =
        returns_bind (λ _ s'. is_near s' ≡ true) (λ _ s'. is_near s' ≡ true) m
          (λ _. repeat_writer n m) s (returns_eq _ (runs s) (move_setpoint_stays s h))
          (λ _ s' near. near_forever n s' near)

    repeat_approaches :
        (n gain deadband : ℕ) (s : Store)
        → is_number_domain (domain entity) ≡ true
        → writer_ramp_w ctx.cfg.global_config ≡ pos (gain + 25000)
        → writer_deadband_w ctx.cfg.global_config ≡ pos deadband
        → 25000 < deadband
        → magnitude (target -ℤ s.number entity) ≤ gain * n + 25000
        → Returns (repeat_writer n m s) (λ _ s'. is_near s' ≡ true)
    unfolding repeat_writer Returns is_near
    repeat_approaches zero gain deadband s known ramp dead wide h = rw dead (ground arith)
    repeat_approaches (suc n) gain deadband s known ramp dead wide h =
        elim (Bool-cases (is_near s)) [
          | inl near ↦ near_forever (suc n) s near
          | inr far ↦
              returns_bind
                (λ _ s'.
                  s'.number entity
                  ≡ next_setpoint (writer_ramp_w ctx.cfg.global_config) (s.number entity) target)
                (λ _ s'. is_near s' ≡ true) m (λ _. repeat_writer n m) s
                (returns_eq _ (runs s) (move_setpoint_moves s far known))
                (λ _ s' moved. repeat_approaches n gain deadband s' known ramp dead wide (
                  rw (moved, ramp)
                    (next_setpoint_closer (gain + 25000) (s.number entity) target (gain * n)
                      (omega (arith, h)))))
        ]

write_battery_runs :
    (ha : HomeAssistant) (ctx : WriterContext) (device_id entity : String) (c : Capabilities)
    (p : DevicePolicy)
    → is_manual ctx.control ≡ false
    → device_policy_by_id ctx device_id ≡ some p
    → p.enabled ≡ true
    → capability_device_config_for_id ctx.cfg device_id ≡ some c
    → (ctx.entities_of device_id).target_w ≡ some entity
    → (s : Store)
    → write_battery_actuator ha ctx device_id s ≡ move_setpoint ha ctx entity c p.target_w s
unfolding write_battery_actuator
write_battery_runs ha ctx device_id entity c p automatic policy enabled config mapped s =
    rw (automatic, policy, enabled, config, mapped, write_battery_actuator)

-- Where Home Assistant carries out its services, outside manual control, for a battery with an
-- enabled policy, a configuration and an entity of a supported domain, and with a ramp and a
-- deadband of more than 25 W: a set point at most 25 W plus `n` times the ramp less 25 W away from
-- the target is within the deadband of it after `n` runs of the battery writer, none of which raises.
pub write_battery_approaches :
    (ha : HomeAssistant)
    → CarriesOut ha
    → (ctx : WriterContext) (device_id entity : String) (c : Capabilities) (p : DevicePolicy)
      (n gain deadband : ℕ) (s : Store)
    → is_manual ctx.control ≡ false
    → device_policy_by_id ctx device_id ≡ some p
    → p.enabled ≡ true
    → capability_device_config_for_id ctx.cfg device_id ≡ some c
    → (ctx.entities_of device_id).target_w ≡ some entity
    → is_number_domain (domain entity) ≡ true
    → writer_ramp_w ctx.cfg.global_config ≡ pos (gain + 25000)
    → writer_deadband_w ctx.cfg.global_config ≡ pos deadband
    → 25000 < deadband
    → magnitude (clamp_target_w_for_capabilities c p.target_w -ℤ s.number entity) ≤ gain * n + 25000
    → Returns (repeat_writer n (write_battery_actuator ha ctx device_id) s) (λ _ s'.
      in_writer_deadband
        (writer_deadband_w ctx.cfg.global_config)
        (s'.number entity)
        (clamp_target_w_for_capabilities c p.target_w)
      ≡ true)
unfolding is_near target
write_battery_approaches ha carries ctx device_id entity c p n gain deadband s automatic policy
      enabled config mapped =
    repeat_approaches ha carries ctx entity c p.target_w (write_battery_actuator ha ctx device_id)
      (write_battery_runs ha ctx device_id entity c p automatic policy enabled config mapped) n gain
      deadband s
