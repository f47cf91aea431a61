-- ===== src/NetZero/Engine/Limits.antt =====
-- Theorems on NetZero/Engine: what the guard leaves of a battery's policy at the end of a tick.
use ha_ems.Prelude.{
  true, false, some, Memᴰ, String, ℤ, pos, neg, ◌≤ℤ◌, ◌≡◌, refl, max_ℤ, round_to, IsWhole,
  whole-le-round_to, round_to-le-whole, neg_parts, max_ℤ_bounds, arith, Option-cases, inl, inr,
}
use ha_ems.Domain.Profiles.{is_manual, is_battery_protect, is_strict_limits}
use ha_ems.Domain.Models.{Device, DeviceKind, DevicePolicy, DeviceControlContext, device_by_id}
use ha_ems.Domain.Capabilities.{clamp_target_w_for_capabilities, rounded_capabilities}
use ha_ems.NetZero.Feedback.{trunc_w}
use ha_ems.NetZero.Battery.{battery_target_and_authority, battery_protect_charge_floor_w}
use ha_ems.NetZero.Battery.Guarded.{protect_charges_battery, strict_limits_battery}
use ha_ems.NetZero.Producer.Capped.{transient_within}
use ha_ems.NetZero.Enforcement.{PolicyDevice, enforce_policy}
use ha_ems.NetZero.Engine.Devices.{find_context}
use ha_ems.NetZero.Engine.Input.{EngineInput, producers}
use ha_ems.NetZero.Engine.Build.{battery_device_policy, producer_policy}
use ha_ems.NetZero.Engine.Targets.{producer_target_of, battery_input, battery_policy_from}
use ha_ems.NetZero.Engine.Outputs.{
  policy_sources, policy_device_of, compute_net_zero_engine_outputs,
}
use ha_ems.NetZero.Engine.Complete.{compute_policies_producer}
use ha_ems.NetZero.Engine.Own.{own_policy_member, kind_policy_battery}
use ha_ems.NetZero.Engine.Discharge.{battery_policy_of_own}
use ha_ems.NetZero.Engine.Shares.{
  protected_no_share, allocated_strict, producer_target_of-transient,
}
use ha_ems.Domain.Capabilities.Kept.{clamp_keeps, clamp_within}

enforce_policy-target :
    (d : PolicyDevice) (p : DevicePolicy)
    → ((enforce_policy d p).target_w ≡ clamp_target_w_for_capabilities d.capabilities p.target_w)
      × ((enforce_policy d p).device_id ≡ p.device_id)
unfolding enforce_policy
enforce_policy-target d p = ground arith

enforce_battery-enabled :
    (d : PolicyDevice) (p : DevicePolicy)
    → d.kind ≡ DeviceKind.battery
    → p.enabled ≡ true
    → (enforce_policy d p).enabled ≡ true
unfolding enforce_policy
enforce_battery-enabled d p kind e = ground arith

policy_device_of_own :
    (i : EngineInput) (d : Device)
    → device_by_id i.cfg d.device_id ≡ some d
    → policy_device_of i d.device_id
      ≡ record { kind = d.kind; capabilities = rounded_capabilities d.capabilities }
unfolding policy_device_of
policy_device_of_own i d found = rw (found, policy_device_of) refl

-- A policy that charges the device with at least `w`.
pub record IsCharging (device_id : String) (w : ℤ) (p : DevicePolicy) : Type 0 where
  pub identified : p.device_id ≡ device_id
  pub enabled : p.enabled ≡ true
  pub charges : w ≤ℤ p.target_w

charge_floor :
    (d : Device) (w : ℤ)
    → IsWhole w
    → w ≤ℤ d.guard.protect_min_absorb_w
    → w ≤ℤ battery_protect_charge_floor_w d
unfolding battery_protect_charge_floor_w
charge_floor d w whole le =
    let least = max_ℤ d.guard.protect_min_absorb_w (pos 0) in
    whole-le-round_to least w whole
      (omega (arith, max_ℤ_bounds d.guard.protect_min_absorb_w (pos 0)))

-- Under BATTERY_PROTECT, outside MANUAL control, a configured battery with an identifier of its own
-- that can absorb power leaves the tick with an enabled policy whose target is at least `w`, for every
-- whole number of watts `w` from 0 up to both its protective charge minimum and its maximum absorbing
-- power.
pub protected_battery_charges :
    (i : EngineInput) (d : Device) (w : ℤ)
    → Memᴰ d i.cfg.devices
    → device_by_id i.cfg d.device_id ≡ some d
    → d.kind ≡ DeviceKind.battery
    → is_manual i.profiles.control ≡ false
    → is_battery_protect i.profiles.guard ≡ true
    → d.capabilities.can_absorb_w ≡ true
    → IsWhole w
    → pos 0 ≤ℤ w
    → w ≤ℤ d.guard.protect_min_absorb_w
    → w ≤ℤ d.capabilities.max_absorb_w
    → (p : DevicePolicy) × Memᴰ p (compute_net_zero_engine_outputs i).device_policies
      × IsCharging d.device_id w p
unfolding battery_input policy_sources
protected_battery_charges i d w m found kind manual protect can whole h floor most =
    let t = battery_target_and_authority (battery_input i d) in
    let p = battery_device_policy d.device_id (battery_policy_from t) in
    let device = policy_device_of i d.device_id in
    let (written, enabled) = protect_charges_battery (battery_input i d) manual protect in
    let charged : w ≤ℤ t.target_w = omega (arith, charge_floor d w whole floor, written) in
    let kept =
      clamp_keeps d.capabilities p.target_w w can whole h most
        (whole-le-round_to _ w whole (whole-le-round_to _ w whole charged)) in
    let own = policy_device_of_own i d found in
    (
      enforce_policy device p,
      own_policy_member i d {p = p} m (protected_no_share i d.device_id protect) (
          kind_policy_battery (policy_sources i) d d.kind kind
            (battery_policy_of_own i d found kind)),
      record {
        identified = (enforce_policy-target device p).1;
        enabled = rw own (enforce_battery-enabled _ p kind enabled);
        charges = rw own (
            rw
              ((enforce_policy-target
                (record { kind = d.kind; capabilities = rounded_capabilities d.capabilities }) p).0)
              kept);
      },
    )

-- A power of at most `limit` in either direction.
abbrev pub IsWithinLimit : ℤ → ℤ → Type 0
IsWithinLimit limit t = (neg limit ≤ℤ t) × (t ≤ℤ limit)

-- A policy of the device whose target is within a limit.
pub record IsLimited (device_id : String) (limit : ℤ) (p : DevicePolicy) : Type 0 where
  pub identified : p.device_id ≡ device_id
  pub within : IsWithinLimit limit p.target_w

enforced-IsLimited :
    (d : PolicyDevice) (p : DevicePolicy) (limit : ℤ)
    → IsWhole limit
    → pos 0 ≤ℤ limit
    → IsWithinLimit limit p.target_w
    → IsLimited p.device_id limit (enforce_policy d p)
enforced-IsLimited d p limit whole h (lower, upper) =
    let (same_target, same_id) = enforce_policy-target d p in
    let low : IsWhole (neg limit) = ground (arith, neg_parts limit) in
    record {
      identified = same_id;
      within = rw same_target (
          clamp_within d.capabilities p.target_w (neg limit) limit low whole
            (omega (arith, neg_parts limit)) h lower upper);
    }

rounded-IsWithinLimit :
    (limit t : ℤ) → IsWhole limit → IsWithinLimit limit t → IsWithinLimit limit (round_to 1000 t)
rounded-IsWithinLimit limit t whole (lower, upper) =
    let low : IsWhole (neg limit) = ground (arith, neg_parts limit) in
    (whole-le-round_to t (neg limit) low lower, round_to-le-whole t limit whole upper)

trunc_w_whole : (z : ℤ) → IsWhole z → trunc_w z ≡ z
trunc_w_whole z whole = ground arith

-- Under STRICT_LIMITS, outside MANUAL control, a configured battery with an identifier of its own
-- leaves the tick with a policy within plus and minus the strict limit, if that is a whole number of
-- watts that is not negative, and if the present target of the battery is within it where the battery
-- stands in the producer pool: a producer's target is ramped from there.
pub strict_battery_within_limit :
    (i : EngineInput) (d : Device)
    → Memᴰ d i.cfg.devices
    → device_by_id i.cfg d.device_id ≡ some d
    → d.kind ≡ DeviceKind.battery
    → is_manual i.profiles.control ≡ false
    → is_strict_limits i.profiles.guard ≡ true
    → IsWhole i.cfg.global_config.strict_limit_w
    → pos 0 ≤ℤ i.cfg.global_config.strict_limit_w
    → ((c : DeviceControlContext)
        → find_context (producers i) d.device_id ≡ some c
        → IsWithinLimit i.cfg.global_config.strict_limit_w c.current_control_target_w)
    → (p : DevicePolicy) × Memᴰ p (compute_net_zero_engine_outputs i).device_policies
      × IsLimited d.device_id i.cfg.global_config.strict_limit_w p
unfolding battery_input policy_sources
strict_battery_within_limit i d m found kind manual strict whole h present =
    let limit = i.cfg.global_config.strict_limit_w in
    let device = policy_device_of i d.device_id in
    elim (Option-cases (producer_target_of i d.device_id)) [
      | inl alone ↦
          let t = battery_target_and_authority (battery_input i d) in
          let p = battery_device_policy d.device_id (battery_policy_from t) in
          let exact = trunc_w_whole limit whole in
          let (upper, lower) =
            rw exact at (strict_limits_battery (battery_input i d) manual strict (rw exact h)) in
          (
            enforce_policy device p,
            own_policy_member i d {p = p} m alone (
                kind_policy_battery (policy_sources i) d d.kind kind
                  (battery_policy_of_own i d found kind)),
            enforced-IsLimited device p limit whole h (
                rounded-IsWithinLimit limit _ whole
                  (rounded-IsWithinLimit limit t.target_w whole (lower, upper))),
          )
      | inr (t, share) ↦
          let (c, in_pool, ramped) = producer_target_of-transient i d.device_id share in
          let (lower, upper) = present c in_pool in
          let within : IsWithinLimit limit t = rw ramped (
            transient_within i.cfg.global_config c _ limit (allocated_strict i d.device_id strict)
              lower upper h) in
          (
            enforce_policy device (producer_policy d.device_id t),
            (compute_policies_producer i d m share).0,
            enforced-IsLimited device (producer_policy d.device_id t) limit whole h
                (rounded-IsWithinLimit limit t whole within),
          )
    ]
