-- ===== src/NetZero/Judgement.antt =====
-- modules/ems_core/net_zero/engine.py: what _resolve_primary_consuming_authority decides of one
-- device of its fallback order.
use ha_ems.Prelude.{
  Bool, false, ◌&&◌, ◌||◌, not, Option, none, some, List, String, same, ℤ, pos, pos_part, ltb_ℤ,
  leb_ℤ, min_ℤ, if◌then◌else◌,
}
use ha_ems.Domain.Models.{
  CoreConfig, GlobalConfig, DeviceControlContext, HardOffLifecycleTransition, HaeoNetZeroPlan,
  device_by_id, is_ev_charger,
}
use ha_ems.NetZero.DerivedInputs.{scale}
use ha_ems.NetZero.Feedback.{candidate_sp_net_zero, quantize_absorb_target_w}
use ha_ems.NetZero.Producer.{active_producer_for_feedback}
use ha_ems.NetZero.Forecast.{limit_of}

-- `_device_policy_value(cfg, device_id, 'force_on', False)`.
unfoldable pub force_on_of : CoreConfig → String → Bool
force_on_of cfg device_id = elim (device_by_id cfg device_id) [
  | none ↦ false
  | some d ↦ d.policy.force_on
]

unfoldable pub raw_low_pv_threshold : CoreConfig → String → ℤ
raw_low_pv_threshold cfg device_id = elim (device_by_id cfg device_id) [
  | none ↦ pos 0
  | some d ↦ d.policy.low_pv_threshold_w
]

-- A threshold above 50 is in watts, any other in kilowatts.
abbrev pub low_pv_threshold : ℤ → ℤ
low_pv_threshold raw = if ltb_ℤ (pos 50000) raw then raw else scale 1000 raw

-- _device_low_energy_condition.
unfoldable pub device_low_energy_condition : CoreConfig → String → Option ℤ → Bool
device_low_energy_condition cfg device_id none = false
device_low_energy_condition cfg device_id (some pv) =
    let threshold = low_pv_threshold (raw_low_pv_threshold cfg device_id) in
    ltb_ℤ (pos 0) threshold && ltb_ℤ pv threshold

unfoldable pub compute_primary_producer_feedback_protection :
    DeviceControlContext → Option DeviceControlContext → Bool → Bool → Bool
compute_primary_producer_feedback_protection primary none low_energy explicit_request = false
compute_primary_producer_feedback_protection primary (some producer) low_energy explicit_request =
    if same primary.device_id producer.device_id
    then false
    else low_energy
      && not explicit_request
      && primary.supports_primary_consuming_regulation
      && primary.can_absorb_w
      && producer.supports_producing_regulation
      && producer.can_produce_w
      && ltb_ℤ producer.current_control_target_w (pos 0)

unfoldable pub compute_primary_consuming_device_target_w : DeviceControlContext → ℤ → ℤ
compute_primary_consuming_device_target_w c requested_w =
    if not c.supports_primary_consuming_regulation
    then pos 0
    else if not c.can_absorb_w
    then pos 0
    else quantize_absorb_target_w requested_w c.min_absorb_w c.max_absorb_w c.step_w

-- _primary_device_power_envelope_w.
unfoldable pub primary_device_power_envelope_w : GlobalConfig → DeviceControlContext → ℤ → ℤ → ℤ
primary_device_power_envelope_w cfg c grid_power_w rpnz_w =
    candidate_sp_net_zero rpnz_w grid_power_w c.current_control_target_w cfg.deadband_w cfg.ramp_w
      c.max_absorb_w (pos 0)

pub data SkipReason : Type 0 where
  device_not_found primary_regulation_not_supported absorb_capability_unavailable lifecycle_hard_off
        producer_feedback_protection no_positive_consuming_request below_min_absorb_w
        haeo_limit_below_min_absorb_w target_not_realisable :
      SkipReason

pub data SelectReason : Type 0 where
  force_on selected : SelectReason

-- The body of the loop for one candidate: why it is skipped, with the request if one was computed,
-- or the target it is given.
pub data Verdict : Type 0 where
  skipped : SkipReason → Option ℤ → Verdict
  chosen : ℤ → ℤ → SelectReason → Verdict

-- What the resolver reads besides the candidates.
pub record Situation : Type 0 where
  pub cfg : CoreConfig
  pub context_of : String → Option DeviceControlContext
  pub transition_of : String → Option HardOffLifecycleTransition
  pub producers : List DeviceControlContext
  pub grid_power_w : ℤ
  pub rpnz_w : ℤ
  pub pv_power_kw : Option ℤ
  pub haeo_nz_plan : Option HaeoNetZeroPlan

-- The HAEO plan's limit on a target: only the planned primary is held at 0 without a limit.
unfoldable pub haeo_limited : Option HaeoNetZeroPlan → String → ℤ → ℤ
haeo_limited none device_id target = target
haeo_limited (some plan) device_id target =
    let limit = limit_of device_id plan.device_limits_w in
    if not plan.active
    then target
    else if ltb_ℤ (pos 0) limit
    then min_ℤ target limit
    else if same device_id plan.primary_consuming_device_id
    then pos 0
    else target

abbrev pub is_hard_off : Option HardOffLifecycleTransition → Bool
is_hard_off none = false
is_hard_off (some t) = t.hard_off_active

unfoldable pub judge_target : DeviceControlContext → ℤ → ℤ → Verdict
judge_target c requested target =
    let lowest = pos (pos_part c.min_absorb_w) in
    if ltb_ℤ (pos 0) lowest && ltb_ℤ (pos 0) target && ltb_ℤ target lowest
    then skipped haeo_limit_below_min_absorb_w (some requested)
    else if leb_ℤ target (pos 0)
    then skipped target_not_realisable (some requested)
    else chosen requested target selected

-- The part of the body behind the force: the shared request and the device's own limits.
unfoldable pub judge_request : Situation → String → DeviceControlContext → Verdict
judge_request s device_id c =
    let requested = primary_device_power_envelope_w s.cfg.global_config c s.grid_power_w s.rpnz_w in
    let lowest = pos (pos_part c.min_absorb_w) in
    if leb_ℤ requested (pos 0)
    then skipped no_positive_consuming_request (some requested)
    else if ltb_ℤ (pos 0) lowest && ltb_ℤ requested lowest
    then skipped below_min_absorb_w (some requested)
    else judge_target c requested (
        haeo_limited s.haeo_nz_plan device_id
          (compute_primary_consuming_device_target_w c requested))

unfoldable pub is_protected : Situation → String → DeviceControlContext → Bool
is_protected s device_id c =
    compute_primary_producer_feedback_protection c (active_producer_for_feedback c s.producers)
      (device_low_energy_condition s.cfg device_id s.pv_power_kw) (force_on_of s.cfg device_id)

unfoldable pub judge_context : Situation → String → DeviceControlContext → Verdict
judge_context s device_id c =
    let forced = force_on_of s.cfg device_id in
    if not c.supports_primary_consuming_regulation
    then skipped primary_regulation_not_supported none
    else if not c.can_absorb_w || leb_ℤ c.max_absorb_w (pos 0)
    then skipped absorb_capability_unavailable none
    else if is_hard_off (s.transition_of device_id) && not forced
    then skipped lifecycle_hard_off none
    else if is_protected s device_id c
    then skipped producer_feedback_protection none
    else if forced && is_ev_charger c.kind
    then chosen c.max_absorb_w c.max_absorb_w force_on
    else judge_request s device_id c

unfoldable pub judge : Situation → String → Verdict
judge s device_id = elim (s.context_of device_id) [
  | none ↦ skipped device_not_found none
  | some c ↦ judge_context s device_id c
]
