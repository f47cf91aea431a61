-- ===== src/Surplus/Contexts.antt =====
-- modules/ems_core/net_zero/engine.py: _generic_surplus_candidate_contexts, and
-- modules/ems_core/net_zero/surplus_candidates.py: the targets that the allocator is given, made
-- from the configured devices.
pub mod Qualified
pub mod Ordered
pub mod Complete
use ha_ems.Prelude.{
  ℕ, ◌+◌, Bool, true, false, ◌&&◌, ◌||◌, not, Option, none, some, List, [], ◌∷◌, String, same,
  has_id, ℤ, pos, pos_part, ◌-ℤ◌, ltb_ℤ, round_to, if◌then◌else◌,
}
use ha_ems.Domain.Models.{
  Device, SurplusDeviceTarget, SurplusDispatchMode, HardOffLifecycleTransition, is_ev_charger,
}
use ha_ems.NetZero.Ev.{
  is_fixed, surplus_threshold_w, surplus_dispatch_mode, surplus_target_w_for_device,
}

-- What the runtime says of a device; a missing entry leaves the configured value.
pub record RuntimeState : Type 0 where
  pub surplus_allowed : Option Bool
  pub force_on : Option Bool
  pub active : Bool

-- The arguments of _generic_surplus_candidate_contexts; a missing power is 0.
pub record CandidateInput : Type 0 where
  pub devices : List Device
  pub active_device_ids : List String
  pub transition_of : String → Option HardOffLifecycleTransition
  pub primary_consuming_device_id : String
  pub runtime_state_of : String → RuntimeState
  pub current_power_of : String → ℤ

-- An entry of `contexts`.
pub record CandidateContext : Type 0 where
  pub device_id : String
  pub priority : ℤ
  pub threshold_w : ℤ
  pub surplus_dispatch_mode : SurplusDispatchMode
  pub enabled : Bool
  pub force_on : Bool
  pub active : Bool
  pub activation_allowed : Bool
  pub releasable_power_w : ℤ

abbrev pub or_configured : Option Bool → Bool → Bool
or_configured none configured = configured
or_configured (some v) configured = v

abbrev pub is_surplus_allowed : CandidateInput → Device → Bool
is_surplus_allowed i d =
    or_configured (i.runtime_state_of d.device_id).surplus_allowed d.policy.surplus_allowed

abbrev pub is_forced_on : CandidateInput → Device → Bool
is_forced_on i d = or_configured (i.runtime_state_of d.device_id).force_on d.policy.force_on

abbrev pub is_allowed_by : Option HardOffLifecycleTransition → Bool
is_allowed_by none = true
is_allowed_by (some t) = t.activation_allowed

-- `releasable_power_w` of a device, before its `max` with 0.
unfoldable pub releasable_power_of : Device → ℤ → ℤ
releasable_power_of d current_w =
    let mode = surplus_dispatch_mode d in
    let nominal = surplus_target_w_for_device d.capabilities mode in
    let current = pos (pos_part current_w) in
    let lowest = pos (pos_part d.capabilities.min_absorb_w) in
    if is_fixed mode
    then nominal
    else if is_ev_charger d.kind && ltb_ℤ lowest current
    then round_to 1000 (current -ℤ lowest)
    else if ltb_ℤ (pos 0) current
    then round_to 1000 current
    else nominal

-- The device stays in the list: `not` the second `continue`.
abbrev pub is_candidate : CandidateInput → Device → Bool
is_candidate i d =
    has_id d.device_id i.active_device_ids
    || (d.capabilities.can_absorb_w && (is_surplus_allowed i d || is_forced_on i d))

unfoldable pub candidate_context : CandidateInput → Device → CandidateContext
candidate_context i d =
    let is_active = has_id d.device_id i.active_device_ids in
    let current_w = pos (pos_part (i.current_power_of d.device_id)) in
    let threshold_w = surplus_threshold_w d current_w is_active in
    record {
      device_id = d.device_id;
      priority = d.policy.priority;
      threshold_w = threshold_w;
      surplus_dispatch_mode = surplus_dispatch_mode d;
      enabled =
          d.capabilities.can_absorb_w
          && (is_surplus_allowed i d || is_forced_on i d)
          && ltb_ℤ (pos 0) threshold_w;
      force_on = is_forced_on i d;
      active = is_active;
      activation_allowed = is_allowed_by (i.transition_of d.device_id) || is_forced_on i d;
      releasable_power_w = pos (pos_part (releasable_power_of d (i.current_power_of d.device_id)));
    }

unfoldable pub candidate_contexts : CandidateInput → List Device → List CandidateContext
unfolding candidate_context
candidate_contexts i [] = []
candidate_contexts i (d ∷ ds) =
    let rest = candidate_contexts i ds in
    if not (same d.device_id i.primary_consuming_device_id) && is_candidate i d
    then candidate_context i d ∷ rest
    else rest

-- The `while` loop: before the first context of lower priority, else at the end.
unfoldable pub insert_context : CandidateContext → List CandidateContext → List CandidateContext
insert_context c [] = c ∷ []
insert_context c (o ∷ ordered) =
    let rest = insert_context c ordered in
    if ltb_ℤ o.priority c.priority then c ∷ o ∷ ordered else o ∷ rest

unfoldable pub insert_contexts :
    List CandidateContext → List CandidateContext → List CandidateContext
insert_contexts ordered [] = ordered
insert_contexts ordered (c ∷ cs) = insert_contexts (insert_context c ordered) cs

unfoldable pub generic_surplus_candidate_contexts : CandidateInput → List CandidateContext
unfolding candidate_contexts insert_contexts insert_context
generic_surplus_candidate_contexts i = insert_contexts [] (candidate_contexts i i.devices)

-- The target of a context.
unfoldable pub candidate_target : CandidateContext → ℕ → SurplusDeviceTarget
candidate_target c rank = record {
  device_id = c.device_id;
  priority = c.priority;
  rank = rank;
  threshold_w = pos (pos_part (round_to 1000 c.threshold_w));
  enabled = c.enabled;
  force_on = c.force_on;
  active = c.active;
  activation_allowed = c.activation_allowed;
  surplus_dispatch_mode = c.surplus_dispatch_mode;
  releasable_power_w = some (pos (pos_part (round_to 1000 c.releasable_power_w)));
}

-- `enumerate` from a rank on; a context without an identifier is passed over and uses up its rank.
unfoldable pub targets_from : ℕ → List CandidateContext → List SurplusDeviceTarget
unfolding candidate_target
targets_from rank [] = []
targets_from rank (c ∷ cs) =
    let rest = targets_from (rank + 1) cs in
    if same c.device_id "" then rest else candidate_target c rank ∷ rest

unfoldable pub build_surplus_candidates : List CandidateContext → List SurplusDeviceTarget
unfolding targets_from
build_surplus_candidates contexts = targets_from 1 contexts

-- As compute_net_zero_engine_outputs composes the two.
unfoldable pub surplus_targets : CandidateInput → List SurplusDeviceTarget
unfolding generic_surplus_candidate_contexts build_surplus_candidates
surplus_targets i = build_surplus_candidates (generic_surplus_candidate_contexts i)
