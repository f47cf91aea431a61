-- ===== src/NetZero/Engine/Tick.antt =====
-- modules/ems_core/net_zero/engine.py: the decisions of compute_net_zero_engine_outputs, on the
-- latches, the primary consumer and the surplus devices. Metrics, payloads and texts are left out.
use ha_ems.Prelude.{
  ℕ, ◌+◌, Bool, false, not, ◌&&◌, ◌||◌, Option, none, some, List, [], ◌∷◌, String, has_id, leb, pos,
  ltb_ℤ, if◌then◌else◌, is_some,
}
use ha_ems.Domain.Models.{
  PreviousDeviceState, HardOffLifecycleTransition, SurplusDeviceTarget, SurplusDispatchInput,
  SurplusDispatchDecision,
}
use ha_ems.Dispatch.{Command, dispatch_action_and_device_id}
use ha_ems.Surplus.Contexts.{
  CandidateInput, CandidateContext, generic_surplus_candidate_contexts, surplus_targets,
}
use ha_ems.Surplus.Allocator.{compute_surplus_device_dispatch}
use ha_ems.NetZero.Forecast.{net_zero_surplus_policy_active}
use ha_ems.NetZero.Judgement.{
  Situation, compute_primary_producer_feedback_protection, device_low_energy_condition, force_on_of,
}
use ha_ems.NetZero.Primary.{ConsumingAuthority, resolve_primary_consuming_authority}
use ha_ems.NetZero.Producer.{active_producer_for_feedback}
use ha_ems.NetZero.Engine.Devices.{find_context}
use ha_ems.NetZero.Engine.Latches.{LatchInput, transition_by_id, next_state_by_id}
use ha_ems.NetZero.Engine.Input.{
  EngineInput, current_power_of, current_power_by_id, plan_active, plan_changed, forecast_in_use,
  fallback_order, device_contexts, producers, active_device_ids,
}

-- `primary_requested_active_by_id`.
abbrev pub is_primary_requested : EngineInput → String → Bool
is_primary_requested i device_id =
    is_some (find_context (device_contexts i) device_id)
    && (force_on_of i.cfg device_id || ltb_ℤ (pos 0) i.nz.rpnz_w)

-- `preliminary_feedback_protection_by_id`.
unfoldable pub is_preliminarily_protected : EngineInput → String → Bool
is_preliminarily_protected i device_id =
    has_id device_id (fallback_order i) && elim (find_context (device_contexts i) device_id) [
      | none ↦ false
      | some c ↦
          compute_primary_producer_feedback_protection c
            (active_producer_for_feedback c (producers i))
            (device_low_energy_condition i.cfg device_id i.pv_power_kw)
            (force_on_of i.cfg device_id)
    ]

unfoldable pub latch_input : EngineInput → LatchInput
unfolding is_preliminarily_protected
latch_input i = record {
  profiles = i.profiles;
  previous_of = i.previous_of;
  active_device_ids = active_device_ids i;
  primary_consuming_device_ids = fallback_order i;
  pv_power_kw = i.pv_power_kw;
  power_of = current_power_of i;
  requested_active_of = is_primary_requested i;
  protected_of = is_preliminarily_protected i;
}

unfoldable pub transition_of : EngineInput → String → Option HardOffLifecycleTransition
unfolding latch_input
transition_of i = transition_by_id (latch_input i) i.cfg.devices

-- What the resolver of the primary consumer reads.
unfoldable pub situation : EngineInput → Situation
unfolding transition_of
situation i = record {
  cfg = i.cfg;
  context_of = find_context (device_contexts i);
  transition_of = transition_of i;
  producers = producers i;
  grid_power_w = i.grid_power_w;
  rpnz_w = i.nz.rpnz_w;
  pv_power_kw = i.pv_power_kw;
  haeo_nz_plan = i.haeo_nz_plan;
}

-- `primary_resolution`.
unfoldable pub primary_resolution : EngineInput → ConsumingAuthority
unfolding situation
primary_resolution i =
    resolve_primary_consuming_authority i.profiles (situation i) (fallback_order i)

unfoldable pub candidate_input : EngineInput → CandidateInput
unfolding primary_resolution
candidate_input i = record {
  devices = i.cfg.devices;
  active_device_ids = active_device_ids i;
  transition_of = transition_of i;
  primary_consuming_device_id = (primary_resolution i).effective_device_id;
  runtime_state_of = i.runtime_state_of;
  current_power_of = current_power_by_id i;
}

-- A device that is forced on now and was not before.
unfoldable pub has_rising_edge : List CandidateContext → List String → Bool
has_rising_edge [] previous = false
has_rising_edge (c ∷ cs) previous =
    (c.force_on && not (has_id c.device_id previous)) || has_rising_edge cs previous

-- _apply_force_rising_edge_freeze_for_devices.
unfoldable pub apply_force_rising_edge_freeze :
    ℕ → Option ℕ → ℕ → List CandidateContext → List String → Option ℕ
unfolding has_rising_edge
apply_force_rising_edge_freeze now_ts freeze_until_ts freeze_s contexts previous =
    if has_rising_edge contexts previous
    then elim freeze_until_ts [
      | none ↦ some (now_ts + freeze_s)
      | some until ↦ some (if leb until (now_ts + freeze_s) then now_ts + freeze_s else until)
    ]
    else freeze_until_ts

unfoldable pub dispatch_input : EngineInput → SurplusDispatchInput
unfolding candidate_input apply_force_rising_edge_freeze
dispatch_input i =
    let targets = surplus_targets (candidate_input i) in
    record {
      policy_active =
          net_zero_surplus_policy_active i.profiles (forecast_in_use i)
            (plan_active i.haeo_nz_plan);
      freeze_until_ts =
          apply_force_rising_edge_freeze i.now_ts i.freeze_until_ts i.surplus_freeze_s
            (generic_surplus_candidate_contexts (candidate_input i)) i.previous_force_on_device_ids;
      rpc_kw = i.nz.required_power_consumption_kw;
      rpnz_w = i.nz.rpnz_w;
      targets = targets;
      active_device_ids = active_device_ids i;
    }

unfoldable pub surplus_decision : EngineInput → SurplusDispatchDecision
unfolding dispatch_input
surplus_decision i = compute_surplus_device_dispatch (dispatch_input i) i.now_ts i.surplus_freeze_s

unfoldable pub any_active : List SurplusDeviceTarget → Bool
any_active [] = false
any_active (t ∷ ts) = t.active || any_active ts

unfoldable pub combo_change_requires_clear : EngineInput → Bool
unfolding any_active
combo_change_requires_clear i =
    plan_active i.haeo_nz_plan
    && plan_changed i.haeo_nz_plan
    && any_active (surplus_targets (candidate_input i))

-- `surplus_dispatch_action` and `surplus_dispatch_device_id`.
unfoldable pub dispatch_command : EngineInput → Command
unfolding surplus_decision combo_change_requires_clear
dispatch_command i =
    dispatch_action_and_device_id (surplus_decision i) (combo_change_requires_clear i)

-- `previous_device_states` of the outputs.
unfoldable pub next_previous_of : EngineInput → String → PreviousDeviceState
next_previous_of i = next_state_by_id (latch_input i) i.cfg.devices
