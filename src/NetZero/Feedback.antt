-- ===== src/NetZero/Feedback.antt =====
-- modules/ems_core/net_zero/battery_controller.py: the shared grid feedback.
-- modules/ems_core/net_zero/engine.py: quantize_absorb_target_w and _ramp_toward_target_w.
pub mod Limits
use ha_ems.Prelude.{
  ℕ, ◌+◌, ◌-◌, ◌*◌, ◌/◌, ◌==◌, Bool, true, false, ◌&&◌, ◌||◌, not, ltb, leb, ℤ, pos, neg, pos_part,
  neg_part, magnitude, ◌+ℤ◌, ◌-ℤ◌, ltb_ℤ, leb_ℤ, min_ℤ, max_ℤ, round_to, sub_ℕ, round_div, floor_to,
  ceil_to, if◌then◌else◌,
}

-- The fields of `net_zero_feedback_state` that its callers read.
pub record Feedback : Type 0 where
  pub error_w : ℤ
  pub in_deadband : Bool
  pub control_step_w : ℤ
  pub desired_control_target_w : ℤ

-- `round(delta_w / 100.0) * 100` of `delta_w = error_w / 2`: hundreds of watts, half to even.
unfoldable pub control_step : ℤ → ℤ
control_step error =
    sub_ℕ (round_div (pos_part error) 200000 * 100000) (round_div (neg_part error) 200000 * 100000)

unfoldable pub net_zero_feedback_state : ℤ → ℤ → ℤ → ℤ → Feedback
unfolding control_step
net_zero_feedback_state rpnz_w grid_actual_w current_control_target_w deadband_w =
    let error = rpnz_w -ℤ grid_actual_w in
    let in_deadband = ltb_ℤ (pos (magnitude error)) (deadband_w +ℤ deadband_w) in
    let step = if in_deadband then pos 0 else control_step error in
    record {
      error_w = error;
      in_deadband = in_deadband;
      control_step_w = step;
      desired_control_target_w = current_control_target_w +ℤ step;
    }

-- `int(x)` of a power: towards zero, to whole watts.
abbrev pub trunc_w : ℤ → ℤ
trunc_w x = sub_ℕ (pos_part x / 1000 * 1000) (neg_part x / 1000 * 1000)

unfoldable pub candidate_sp_net_zero : ℤ → ℤ → ℤ → ℤ → ℤ → ℤ → ℤ → ℤ
unfolding net_zero_feedback_state
candidate_sp_net_zero rpnz_w grid_actual_w current_sp_w deadband_w ramp_w max_sp_w floor_w =
    let feedback = net_zero_feedback_state rpnz_w grid_actual_w current_sp_w deadband_w in
    let ramp = trunc_w ramp_w in
    let step_clamped = max_ℤ (min_ℤ feedback.control_step_w ramp) (neg ramp) in
    let raw = current_sp_w +ℤ step_clamped in
    if feedback.in_deadband
    then round_to 1000 current_sp_w
    else if ltb_ℤ rpnz_w (pos 0) && ltb_ℤ feedback.error_w (neg deadband_w)
    then round_to 1000 (min_ℤ raw max_sp_w)
    else round_to 1000 (min_ℤ (max_ℤ raw floor_w) max_sp_w)

-- _ramp_toward_target_w.
unfoldable pub ramp_toward_target_w : ℤ → ℤ → ℤ → ℤ
ramp_toward_target_w current_w desired_w ramp_w =
    let ramp = pos (pos_part ramp_w) in
    let delta = desired_w -ℤ current_w in
    if leb_ℤ ramp (pos 0)
    then desired_w
    else if ltb_ℤ ramp delta
    then current_w +ℤ ramp
    else if ltb_ℤ delta (neg ramp)
    then current_w -ℤ ramp
    else desired_w

-- `min_absorb_w + int((clamped_w - min_absorb_w) // step_w) * step_w`: the quotient is rounded
-- down, also where a minimum above the maximum makes the difference negative.
abbrev pub on_step_grid : ℕ → ℕ → ℕ → ℤ
on_step_grid lowest clamped step =
    if leb lowest clamped
    then pos (lowest + floor_to step (clamped - lowest))
    else sub_ℕ lowest (ceil_to step (lowest - clamped))

-- quantize_absorb_target_w: an argument below 0 counts as 0.
unfoldable pub quantize_absorb_target_w : ℤ → ℤ → ℤ → ℤ → ℤ
quantize_absorb_target_w requested_w min_absorb_w max_absorb_w step_w =
    let requested = pos_part requested_w in
    let lowest = pos_part min_absorb_w in
    let highest = pos_part max_absorb_w in
    let step = pos_part step_w in
    let raised = if ltb requested lowest then lowest else requested in
    let clamped = if ltb highest raised then highest else raised in
    if highest == 0 || requested == 0
    then pos 0
    else if step == 0
    then pos clamped
    else min_ℤ (pos highest) (on_step_grid lowest clamped step)
