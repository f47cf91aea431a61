-- ===== src/NetZero/Ev.antt =====
-- modules/ems_core/net_zero/engine.py: the EV policies, _ev_device_mode_and_target_w and
-- _ev_surplus_policy_for_device, and the surplus target of a device.
pub mod Policy
use ha_ems.Prelude.{
  ℕ, ◌+◌, ◌*◌, Bool, true, false, ◌&&◌, ◌||◌, not, Option, none, some, String, same, ℤ, pos,
  pos_part, magnitude, ltb, leb, ◌-ℤ◌, ltb_ℤ, leb_ℤ, min_ℤ, max_ℤ, eqb_ℤ, round_to, if◌then◌else◌,
}
use ha_ems.Domain.Profiles.{Profiles, is_net_zero, is_max_export}
use ha_ems.Domain.Models.{
  Capabilities, DeviceKind, Device, HaeoTargets, HaeoNetZeroPlan, SurplusDeviceTarget,
  SurplusDispatchMode, SurplusDispatchDecision, HardOffLifecycleTransition, PolicyMode,
  PolicyReason, is_ev_charger,
}
use ha_ems.NetZero.Forecast.{EvContext, ev_strategy_target_w, limit_of}

abbrev pub is_fixed : SurplusDispatchMode → Bool
is_fixed SurplusDispatchMode.fixed = true
is_fixed _ = false

-- _surplus_dispatch_mode: without a configured mode, `fixed` if the range is a point.
unfoldable pub surplus_dispatch_mode : Device → SurplusDispatchMode
surplus_dispatch_mode d = elim d.policy.surplus_dispatch_mode [
  | SurplusDispatchMode.unset ↦
      if ltb_ℤ (pos 0) d.capabilities.min_absorb_w
        && ltb (magnitude (d.capabilities.max_absorb_w -ℤ d.capabilities.min_absorb_w)) 500
      then SurplusDispatchMode.fixed
      else SurplusDispatchMode.max_absorb
  | configured ↦ configured
]

-- _surplus_target_w_for_device.
unfoldable pub surplus_target_w_for_device : Capabilities → SurplusDispatchMode → ℤ
surplus_target_w_for_device c mode =
    if is_fixed mode && ltb_ℤ (pos 0) c.min_absorb_w
    then round_to 1000 c.min_absorb_w
    else round_to 1000 (max_ℤ c.max_absorb_w (pos 0))

-- _surplus_threshold_w, without the text that names its source.
unfoldable pub surplus_threshold_w : Device → ℤ → Bool → ℤ
surplus_threshold_w d current_power_w active =
    let highest = pos_part d.capabilities.max_absorb_w in
    let lowest = pos_part d.capabilities.min_absorb_w in
    let step = pos_part d.capabilities.step_w in
    let current = pos_part current_power_w in
    let twice_tolerance = if ltb step 2000 then 2000 else step in
    if is_ev_charger d.kind
      && not active
      && ltb 0 lowest
      && ltb lowest highest
      && leb (2 * magnitude (pos current -ℤ pos lowest)) twice_tolerance
    then pos highest -ℤ pos lowest
    else pos highest

abbrev pub hard_off_of : Option HardOffLifecycleTransition → Bool
hard_off_of none = false
hard_off_of (some t) = t.hard_off_active

-- The limit of an active HAEO plan on a positive target: no limit means 0.
unfoldable pub ev_plan_limited : Profiles → Option HaeoNetZeroPlan → String → Bool → ℤ → ℤ
ev_plan_limited profiles none device_id force_on target = target
ev_plan_limited profiles (some plan) device_id force_on target =
    let limit = limit_of device_id plan.device_limits_w in
    if is_net_zero profiles.goal && plan.active && ltb_ℤ (pos 0) target && not force_on
    then (if ltb_ℤ (pos 0) limit then min_ℤ target limit else pos 0)
    else target

pub record ModeAndTarget : Type 0 where
  pub mode : PolicyMode
  pub target_w : ℤ

pub data EvRole : Type 0 where
  primary surplus_candidate : EvRole

abbrev pub is_primary_role : EvRole → Bool
is_primary_role primary = true
is_primary_role _ = false

-- The arguments of `_ev_device_mode_and_target_w`.
pub record EvModeInput : Type 0 where
  pub profiles : Profiles
  pub ev : EvContext
  pub haeo : HaeoTargets
  pub role : EvRole
  pub burn_active : Bool
  pub activation_blocked : Bool
  pub surplus_active : Bool
  pub ev_release_pending : Bool
  pub rpnz_w : ℤ
  pub lifecycle_transition : Option HardOffLifecycleTransition
  pub uses_hard_off_lifecycle : Bool
  pub haeo_nz_plan : Option HaeoNetZeroPlan

unfoldable pub ev_strategic_target : EvModeInput → ℤ
ev_strategic_target i = ev_plan_limited i.profiles i.haeo_nz_plan i.ev.device_id i.ev.force_on (
    if i.burn_active
      && i.surplus_active
      && not i.ev_release_pending
      && not (is_primary_role i.role)
      && ltb_ℤ (pos 0) i.rpnz_w
    then i.ev.max_absorb_w
    else ev_strategy_target_w i.profiles i.ev i.haeo i.burn_active)

unfoldable pub ev_device_mode_and_target_w : EvModeInput → ModeAndTarget
ev_device_mode_and_target_w i =
    let strategic = ev_strategic_target i in
    let target = if i.activation_blocked && not i.ev.force_on then pos 0 else strategic in
    if is_max_export i.profiles.goal && eqb_ℤ strategic (pos 0)
    then record {
      mode = if i.uses_hard_off_lifecycle then PolicyMode.hard_off else PolicyMode.restore_min;
      target_w = pos 0;
    }
    else if i.uses_hard_off_lifecycle && hard_off_of i.lifecycle_transition && not i.ev.force_on
    then record { mode = PolicyMode.hard_off; target_w = pos 0 }
    else if ltb_ℤ (pos 0) target
    then record { mode = PolicyMode.burn; target_w = target }
    else record {
      mode = PolicyMode.restore_min;
      target_w = if is_primary_role i.role then i.ev.min_absorb_w else pos 0;
    }

pub record EvPolicy : Type 0 where
  pub target_w : ℤ
  pub enabled : Bool
  pub mode : PolicyMode
  pub reason : PolicyReason

-- The arguments of `_ev_surplus_policy_for_device`.
pub record EvSurplusInput : Type 0 where
  pub profiles : Profiles
  pub capabilities : Capabilities
  pub ev : EvContext
  pub haeo : HaeoTargets
  pub surplus_target : Option SurplusDeviceTarget
  pub lifecycle_transition : Option HardOffLifecycleTransition
  pub dispatch_decision : Option SurplusDispatchDecision
  pub combo_change_requires_clear : Bool
  pub rpnz_w : ℤ
  pub haeo_nz_plan : Option HaeoNetZeroPlan

abbrev pub target_active : Option SurplusDeviceTarget → Bool
target_active none = false
target_active (some t) = t.active

abbrev pub names : Option String → String → Bool
names none device_id = false
names (some x) device_id = same x device_id

abbrev pub releases : Option SurplusDispatchDecision → String → Bool
releases none device_id = false
releases (some d) device_id = names d.release device_id

abbrev pub clears : Option SurplusDeviceTarget → Option SurplusDispatchDecision → Bool
clears none d = false
clears (some t) none = false
clears (some t) (some d) = d.clear_all

abbrev pub clear_pending : EvSurplusInput → Bool
clear_pending i =
    is_net_zero i.profiles.goal
    && (i.combo_change_requires_clear || clears i.surplus_target i.dispatch_decision)

abbrev pub ev_burn_active : EvSurplusInput → Bool
ev_burn_active i = target_active i.surplus_target && not (clear_pending i)

-- The two assignments behind the strategy give an active surplus its configured power.
unfoldable pub ev_surplus_power : EvSurplusInput → ℤ
ev_surplus_power i =
    let strategic = ev_strategy_target_w i.profiles i.ev i.haeo (ev_burn_active i) in
    elim i.surplus_target [
      | none ↦ strategic
      | some t ↦
          if ev_burn_active i
            && (is_net_zero i.profiles.goal
                || (not (releases i.dispatch_decision i.ev.device_id) && ltb_ℤ (pos 0) i.rpnz_w))
          then surplus_target_w_for_device i.capabilities t.surplus_dispatch_mode
          else strategic
    ]

-- A policy that keeps the EV off.
abbrev pub ev_off : PolicyMode → PolicyReason → EvPolicy
ev_off mode reason = record { target_w = pos 0; enabled = false; mode = mode; reason = reason }

unfoldable pub ev_surplus_policy_for_device : EvSurplusInput → EvPolicy
ev_surplus_policy_for_device i =
    let force_on = i.ev.force_on in
    let target =
      ev_plan_limited i.profiles i.haeo_nz_plan i.ev.device_id force_on (ev_surplus_power i) in
    if hard_off_of i.lifecycle_transition && not force_on
    then ev_off PolicyMode.hard_off PolicyReason.ev_lifecycle_hard_off
    else if (clear_pending i
          || (releases i.dispatch_decision i.ev.device_id && not (target_active i.surplus_target)))
        && not force_on
    then ev_off PolicyMode.restore_min PolicyReason.ev_surplus_release
    else if is_max_export i.profiles.goal && leb_ℤ target (pos 0)
    then ev_off
        (if i.capabilities.uses_hard_off_lifecycle
          then PolicyMode.hard_off
          else PolicyMode.restore_min)
        PolicyReason.ev_policy
    else if ltb_ℤ (pos 0) target
    then record {
      target_w = target;
      enabled = true;
      mode = PolicyMode.burn;
      reason = if force_on then PolicyReason.ev_force_on else PolicyReason.ev_surplus_policy;
    }
    else ev_off PolicyMode.restore_min PolicyReason.ev_policy_inactive
