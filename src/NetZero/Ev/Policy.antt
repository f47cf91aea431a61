-- ===== src/NetZero/Ev/Policy.antt =====
-- Theorems on NetZero/Ev: _ev_surplus_policy_for_device.
use ha_ems.Prelude.{
  Bool, true, false, Option, none, some, String, pos, ◌≡◌, refl, ◌<ℤ◌, arith, ◌⊎◌, ◌≢◌, Bool-cases,
  inl, inr,
}
use ha_ems.Domain.Profiles.{Profiles, is_net_zero}
use ha_ems.Domain.Models.{PolicyMode, PolicyReason, HaeoNetZeroPlan}
use ha_ems.NetZero.Forecast.{ev_strategy_target_w}
use ha_ems.NetZero.Ev.{
  EvSurplusInput, EvPolicy, ev_off, ev_surplus_policy_for_device, ev_surplus_power, ev_plan_limited,
  clear_pending, ev_burn_active, target_active, hard_off_of,
}

-- Enabled in mode `burn` with a positive target, or disabled in another mode with target 0.
pub record IsConsistent (p : EvPolicy) : Type 0 where
  pub burns :
      ((p.enabled ≡ true) × (p.mode ≡ PolicyMode.burn) × (pos 0 <ℤ p.target_w))
      ⊎ ((p.enabled ≡ false) × (p.mode ≢ PolicyMode.burn) × (p.target_w ≡ pos 0))

-- The surplus policy of an EV is enabled exactly in mode `burn`; an enabled one has a positive
-- target, a disabled one target 0.
pub ev_surplus_policy-IsConsistent :
    (i : EvSurplusInput) → IsConsistent (ev_surplus_policy_for_device i)
unfolding ev_surplus_policy_for_device
ev_surplus_policy-IsConsistent i = ground arith

-- A latched EV that is not forced is kept off, whatever its surplus state.
pub latched_ev_stays_off :
    (i : EvSurplusInput)
    → hard_off_of i.lifecycle_transition ≡ true
    → i.ev.force_on ≡ false
    → ev_surplus_policy_for_device i ≡ ev_off PolicyMode.hard_off PolicyReason.ev_lifecycle_hard_off
unfolding ev_surplus_policy_for_device
latched_ev_stays_off i h f = ground arith

ev_plan_limited_zero :
    (p : Profiles) (plan : Option HaeoNetZeroPlan) (x : String) (f : Bool)
    → ev_plan_limited p plan x f (pos 0) ≡ pos 0
unfolding ev_plan_limited
ev_plan_limited_zero p none x f = refl
ev_plan_limited_zero p (some plan) x f = ground arith

strategy_idle :
    (i : EvSurplusInput) (b : Bool)
    → is_net_zero i.profiles.goal ≡ true
    → i.ev.force_on ≡ false
    → b ≡ false
    → ev_strategy_target_w i.profiles i.ev i.haeo b ≡ pos 0
unfolding ev_strategy_target_w
strategy_idle i b g f e = ground arith

surplus_power_idle :
    (i : EvSurplusInput)
    → is_net_zero i.profiles.goal ≡ true
    → i.ev.force_on ≡ false
    → ev_burn_active i ≡ false
    → ev_surplus_power i ≡ pos 0
unfolding ev_surplus_power
surplus_power_idle i g f b = ground (arith, strategy_idle i (ev_burn_active i) g f b)

enabled_positive :
    (i : EvSurplusInput)
    → (ev_surplus_policy_for_device i).enabled ≡ true
    → pos 0
      <ℤ ev_plan_limited i.profiles i.haeo_nz_plan i.ev.device_id i.ev.force_on (ev_surplus_power i)
unfolding ev_surplus_policy_for_device
enabled_positive i e = ground arith

-- Under NET_ZERO an EV that is not forced is enabled only with an active surplus target that is not
-- being cleared.
pub ev_burn_needs_surplus :
    (i : EvSurplusInput)
    → is_net_zero i.profiles.goal ≡ true
    → i.ev.force_on ≡ false
    → (ev_surplus_policy_for_device i).enabled ≡ true
    → (target_active i.surplus_target ≡ true) × (clear_pending i ≡ false)
ev_burn_needs_surplus i g f e = elim (Bool-cases (ev_burn_active i)) [
  | inl b ↦ ground arith
  | inr b ↦ absurd (
      ground (
        arith,
        enabled_positive i e,
        surplus_power_idle i g f b,
        ev_plan_limited_zero i.profiles i.haeo_nz_plan i.ev.device_id i.ev.force_on,
      ))
]
