-- ===== src/NetZero/Engine/Latched.antt =====
-- Theorems on NetZero/Engine: a device that the hard-off latch holds.
use ha_ems.Prelude.{
  Bool, true, false, ◌||◌, Option, none, some, List, [], ◌∷◌, Memᴰ, String, same, same_iff, ◌≡◌,
  refl, ap, subst, ◌∙◌, round_to, round_div, if◌then◌else◌, arith, Bool-cases, inl, inr, ◌⊎◌,
}
use ha_ems.Domain.Profiles.{is_automatic, is_horizon_by_haeo, is_net_zero}
use ha_ems.Domain.Models.{
  Device, DeviceKind, DevicePolicy, PolicyMode, PolicyReason, device_by_id,
  HardOffLifecycleTransition,
}
use ha_ems.NetZero.Lifecycle.{compute_hard_off_lifecycle_transition, lifecycle_inactive}
use ha_ems.NetZero.Judgement.{is_hard_off, force_on_of}
use ha_ems.NetZero.Primary.Authority.{resolve-first}
use ha_ems.NetZero.Engine.Latches.{LatchInput, lifecycle_input, device_transition, transition_by_id}
use ha_ems.NetZero.Engine.Input.{EngineInput, fallback_order}
use ha_ems.NetZero.Engine.Tick.{latch_input, transition_of, primary_resolution, situation}
use ha_ems.NetZero.Engine.Targets.{
  effective_primary, producer_target_of, ev_policy_of, ev_surplus_input,
}
use ha_ems.NetZero.Engine.Outputs.{
  policy_sources, policy_device_of, compute_net_zero_engine_outputs,
}
use ha_ems.NetZero.Engine.Build.{ev_device_policy}
use ha_ems.NetZero.Enforcement.{PolicyDevice, enforce_policy}
use ha_ems.Domain.Capabilities.{clamp_target_w_for_capabilities, capability_block_reason}
use ha_ems.NetZero.Ev.{ev_off, hard_off_of, ev_surplus_policy_for_device}
use ha_ems.NetZero.Engine.Own.{own_policy_member, kind_policy_ev}

device_transition_latched :
    (i : LatchInput) (d : Device)
    → is_hard_off (device_transition i d) ≡ true
    → (is_automatic i.profiles.control ≡ true) × (is_net_zero i.profiles.goal ≡ true)
unfolding device_transition lifecycle_input compute_hard_off_lifecycle_transition lifecycle_inactive
device_transition_latched i d h = (ground arith, ground arith)

latched_if :
    (b : Bool) (p q : Option HardOffLifecycleTransition)
    → is_hard_off (if b then p else q) ≡ true
    → (is_hard_off p ≡ true) ⊎ (is_hard_off q ≡ true)
latched_if true p q h = inl h
latched_if false p q h = inr h

transition_by_id_latched :
    (i : LatchInput) (ds : List Device) (x : String)
    → is_hard_off (transition_by_id i ds x) ≡ true
    → (is_automatic i.profiles.control ≡ true) × (is_net_zero i.profiles.goal ≡ true)
unfolding transition_by_id
transition_by_id_latched i [] x h = absurd (cc h)
transition_by_id_latched i (d ∷ ds) x h =
    elim (latched_if (same d.device_id x) (device_transition i d) (transition_by_id i ds x) h) [
      | inl here ↦ device_transition_latched i d here
      | inr later ↦ transition_by_id_latched i ds x later
    ]

-- A device that the hard-off latch holds in this tick and that is not forced on is not the effective
-- primary consumer.
pub latched_not_primary :
    (i : EngineInput) (x : String)
    → is_hard_off (transition_of i x) ≡ true
    → force_on_of i.cfg x ≡ false
    → same x "" ≡ false
    → same x (effective_primary i) ≡ false
unfolding primary_resolution situation latch_input transition_of
latched_not_primary i x latched free named =
    let (automatic, net_zero) = transition_by_id_latched (latch_input i) i.cfg.devices x latched in
    let control : (is_automatic i.profiles.control || is_horizon_by_haeo i.profiles.control)
        ≡ true =
      rw automatic refl in
    elim (Bool-cases (same x (effective_primary i))) [
      | inr apart ↦ apart
      | inl e ↦
          let is_primary : x ≡ effective_primary i = (same_iff x (effective_primary i)).0 e in
          elim (resolve-first i.profiles (situation i) (fallback_order i) net_zero control) [
            | inr nobody ↦
                let empty = (same_iff x "").1 (is_primary ∙ nobody.no_device) in absurd (cc)
            | inl first ↦ elim (first.realisable.not_latched) [
              | inl not_latched ↦ absurd (cc)
              | inr forced ↦ absurd (cc)
            ]
          ]
    ]

abbrev pub off_policy : String → DevicePolicy
off_policy device_id =
    ev_device_policy device_id (ev_off PolicyMode.hard_off PolicyReason.ev_lifecycle_hard_off)

enforce_off :
    (d : PolicyDevice) (device_id : String)
    → enforce_policy d (off_policy device_id) ≡ off_policy device_id
unfolding enforce_policy clamp_target_w_for_capabilities capability_block_reason round_to round_div
enforce_off d device_id = refl

hard_off_same : (o : Option HardOffLifecycleTransition) → hard_off_of o ≡ is_hard_off o
hard_off_same none = refl
hard_off_same (some t) = refl

force_on_found :
    (i : EngineInput) (d : Device)
    → device_by_id i.cfg d.device_id ≡ some d
    → force_on_of i.cfg d.device_id ≡ d.policy.force_on
unfolding force_on_of
force_on_found i d found = rw (found, force_on_of) refl

ev_policy_of_other :
    (i : EngineInput) (d : Device)
    → device_by_id i.cfg d.device_id ≡ some d
    → d.kind ≡ DeviceKind.ev_charger
    → same d.device_id (effective_primary i) ≡ false
    → ev_policy_of i d.device_id ≡ some (ev_surplus_policy_for_device (ev_surplus_input i d))
unfolding ev_policy_of
ev_policy_of_other i d found kind apart = rw (found, kind, apart, ev_policy_of) refl

latched_ev_policy :
    (i : EngineInput) (d : Device)
    → hard_off_of (transition_of i d.device_id) ≡ true
    → d.policy.force_on ≡ false
    → ev_surplus_policy_for_device (ev_surplus_input i d)
      ≡ ev_off PolicyMode.hard_off PolicyReason.ev_lifecycle_hard_off
unfolding ev_surplus_policy_for_device ev_surplus_input
latched_ev_policy i d latched free = rw (latched, free) refl

-- A configured EV charger with an identifier of its own that the hard-off latch holds in this tick,
-- that is not forced on and has no share of the production, leaves the tick with the policy that
-- switches it off: no power, not enabled, mode hard_off.
pub latched_ev_off :
    (i : EngineInput) (d : Device)
    → Memᴰ d i.cfg.devices
    → device_by_id i.cfg d.device_id ≡ some d
    → same d.device_id "" ≡ false
    → d.kind ≡ DeviceKind.ev_charger
    → is_hard_off (transition_of i d.device_id) ≡ true
    → d.policy.force_on ≡ false
    → producer_target_of i d.device_id ≡ none
    → Memᴰ (off_policy d.device_id) (compute_net_zero_engine_outputs i).device_policies
unfolding policy_sources
latched_ev_off i d m found named kind latched free alone =
    let apart = latched_not_primary i d.device_id latched (force_on_found i d found ∙ free) named in
    let off =
      ev_policy_of_other i d found kind apart
      ∙ ap some
          (latched_ev_policy i d (hard_off_same (transition_of i d.device_id) ∙ latched) free) in
    subst (λ p. Memᴰ p (compute_net_zero_engine_outputs i).device_policies)
      (enforce_off (policy_device_of i d.device_id) d.device_id)
      (own_policy_member i d {p = off_policy d.device_id} m alone
        (kind_policy_ev (policy_sources i) d d.kind kind (off)))
