-- ===== src/NetZero/Producer.antt =====
-- modules/ems_core/net_zero/engine.py: the producer pool, which serves a negative target.
pub mod Capped
pub mod Dispatch
use ha_ems.Prelude.{
  ℕ, zero, ◌+◌, ◌-◌, ◌==◌, Bool, true, false, ◌&&◌, ◌||◌, not, Option, none, some, List, [], ◌∷◌,
  map, String, same, ltb, leb, ℤ, pos, neg, pos_part, neg_part, ◌+ℤ◌, ltb_ℤ, floor_to,
  if◌then◌else◌,
}
use ha_ems.Domain.Profiles.{Profiles, is_degraded, is_battery_protect, is_strict_limits}
use ha_ems.Domain.Models.{DeviceControlContext, GlobalConfig}
use ha_ems.NetZero.Feedback.{Feedback, net_zero_feedback_state, ramp_toward_target_w}

-- quantize_produce_magnitude_toward_zero; a negative argument counts as 0, and step 0 means that
-- nothing is quantized.
unfoldable pub quantize_produce_magnitude_toward_zero : ℕ → ℤ → ℕ
quantize_produce_magnitude_toward_zero requested_w step_w =
    if requested_w == 0 || pos_part step_w == 0
    then requested_w
    else floor_to (pos_part step_w) requested_w

-- _producer_effective_hard_ceiling_w.
unfoldable pub producer_effective_hard_ceiling_w :
    Profiles → GlobalConfig → DeviceControlContext → ℕ
producer_effective_hard_ceiling_w profiles cfg c =
    if not c.supports_producing_regulation || not c.can_produce_w
    then 0
    else if pos_part c.max_produce_w == 0
    then 0
    else if is_degraded profiles.guard || is_battery_protect profiles.guard
    then 0
    else quantize_produce_magnitude_toward_zero
        (if is_strict_limits profiles.guard
            && ltb (pos_part cfg.strict_limit_w) (pos_part c.max_produce_w)
          then pos_part cfg.strict_limit_w
          else pos_part c.max_produce_w)
        c.step_w

-- `current_control_target_w` over the pool.
unfoldable pub total_control_target_w : List DeviceControlContext → ℤ
total_control_target_w [] = pos 0
total_control_target_w (c ∷ cs) = c.current_control_target_w +ℤ total_control_target_w cs

pub record ProducerRequest : Type 0 where
  pub feedback : Feedback
  pub requested_w : ℕ

-- _producer_feedback_request.
unfoldable pub producer_feedback_request :
    GlobalConfig → List DeviceControlContext → ℤ → ℤ → ProducerRequest
producer_feedback_request cfg producers rpnz_w grid_actual_w =
    let feedback =
      net_zero_feedback_state rpnz_w grid_actual_w (total_control_target_w producers)
        cfg.deadband_w in
    record { feedback = feedback; requested_w = neg_part feedback.desired_control_target_w }

-- One producer's share: its entry in `allocated_w_by_id` and `ceiling_w_by_id`, and whether it
-- stands in `skipped_below_min`.
pub record Share : Type 0 where
  pub device_id : String
  pub ceiling_w : ℕ
  pub allocated_w : ℕ
  pub skipped_below_min : Bool

pub record Allocation : Type 0 where
  pub shares : List Share
  pub unserved_w : ℕ

abbrev pub closed_share : (DeviceControlContext → ℕ) → DeviceControlContext → Share
closed_share ceiling c = record {
  device_id = c.device_id;
  ceiling_w = ceiling c;
  allocated_w = 0;
  skipped_below_min = false;
}

-- What the loop's body decides about one producer.
pub data Opening : Type 0 where
  passed_over below_minimum : Opening
  served_last served : ℕ → Opening

unfoldable pub open_producer : (DeviceControlContext → ℕ) → DeviceControlContext → ℕ → Opening
open_producer ceiling c need =
    let requested = if leb need (ceiling c) then need else ceiling c in
    let allocated = quantize_produce_magnitude_toward_zero requested c.step_w in
    if ceiling c == 0
    then passed_over
    else if ltb 0 allocated && ltb allocated (pos_part c.min_produce_w)
    then below_minimum
    else if leb need (ceiling c)
    then served_last allocated
    else served allocated

abbrev pub add_share : Share → Allocation → Allocation
add_share s a = record { shares = s ∷ a.shares; unserved_w = a.unserved_w }

-- The `for` loop over the producers in priority order; a need of 0 ends it.
unfoldable pub allocate_loop :
    (DeviceControlContext → ℕ) → List DeviceControlContext → ℕ → Allocation
allocate_loop ceiling [] need = record { shares = []; unserved_w = need }
allocate_loop ceiling (c ∷ cs) need =
    let closed = closed_share ceiling c in
    let stopped = map (closed_share ceiling) cs in
    if need == 0
    then record { shares = closed ∷ stopped; unserved_w = need }
    else elim (open_producer ceiling c need) [
      | passed_over ↦ add_share closed (allocate_loop ceiling cs need)
      | below_minimum ↦
          add_share (record closed { skipped_below_min = true }) (allocate_loop ceiling cs need)
      | served_last w ↦ record {
        shares = record closed { allocated_w = w } ∷ stopped;
        unserved_w = need - w;
      }
      | served w ↦
          add_share (record closed { allocated_w = w }) (allocate_loop ceiling cs (need - w))
    ]

-- _allocate_producer_dispatch.
unfoldable pub allocate_producer_dispatch :
    Profiles → GlobalConfig → List DeviceControlContext → ℤ → Allocation
allocate_producer_dispatch profiles cfg producers requested_w =
    allocate_loop (producer_effective_hard_ceiling_w profiles cfg) producers (pos_part requested_w)

-- _producer_transient_target_w.
unfoldable pub producer_transient_target_w : GlobalConfig → DeviceControlContext → ℕ → ℤ
producer_transient_target_w cfg c allocated_magnitude_w =
    let target =
      ramp_toward_target_w c.current_control_target_w (neg (pos allocated_magnitude_w))
        cfg.ramp_w in
    if ltb_ℤ target (pos 0)
    then neg (pos (quantize_produce_magnitude_toward_zero (neg_part target) c.step_w))
    else target

-- _active_producer_for_feedback.
unfoldable pub active_producer_for_feedback :
    DeviceControlContext → List DeviceControlContext → Option DeviceControlContext
active_producer_for_feedback primary [] = none
active_producer_for_feedback primary (p ∷ ps) =
    if not (same p.device_id primary.device_id)
      && p.can_produce_w
      && ltb_ℤ p.current_control_target_w (pos 0)
    then some p
    else active_producer_for_feedback primary ps
