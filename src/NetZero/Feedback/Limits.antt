-- ===== src/NetZero/Feedback/Limits.antt =====
-- Theorems on NetZero/Feedback: candidate_sp_net_zero, the ramp and the absorb grid.
use ha_ems.Prelude.{
  ℕ, zero, suc, ◌+◌, ◌-◌, ◌*◌, ◌≤◌, ◌<◌, ◌≡◌, false, ◌&&◌, ℤ, pos, neg, pos_part, neg_part,
  magnitude, ◌+ℤ◌, ◌-ℤ◌, ◌≤ℤ◌, ltb_ℤ, min_ℤ, max_ℤ, round_to, IsWhole, round_to-le-whole,
  floor_to_bounds, round_div, arith, +ℤ_parts, -ℤ_parts, neg_parts, min_ℤ_bounds, eq_of_parts,
  parts_disjoint, ◌⊎◌, inl, inr, Bool-cases,
}
use ha_ems.NetZero.Feedback.{
  control_step, net_zero_feedback_state, trunc_w, candidate_sp_net_zero, ramp_toward_target_w,
  quantize_absorb_target_w,
}

-- Inside the deadband the target is held.
pub candidate_deadband :
    (rpnz grid current deadband ramp highest lowest : ℤ)
    → magnitude (rpnz -ℤ grid) < pos_part (deadband +ℤ deadband)
    → candidate_sp_net_zero rpnz grid current deadband ramp highest lowest ≡ round_to 1000 current
unfolding candidate_sp_net_zero net_zero_feedback_state
candidate_deadband rpnz grid current deadband ramp highest lowest h = ground arith

-- The step has the sign of the error.
control_step_sign :
    (error : ℤ)
    → (neg_part error ≡ 0 → neg_part (control_step error) ≡ 0)
      × (pos_part error ≡ 0 → pos_part (control_step error) ≡ 0)
unfolding control_step round_div
control_step_sign error = ground arith

candidate-capped :
    (rpnz grid current deadband ramp highest lowest : ℤ)
    → (net_zero_feedback_state rpnz grid current deadband).in_deadband ≡ false
    → (x : ℤ) × (candidate_sp_net_zero rpnz grid current deadband ramp highest lowest
        ≡ round_to 1000 (min_ℤ x highest))
unfolding candidate_sp_net_zero
candidate-capped rpnz grid current deadband ramp highest lowest out =
    let feedback = net_zero_feedback_state rpnz grid current deadband in
    let raw =
      current +ℤ max_ℤ (min_ℤ feedback.control_step_w (trunc_w ramp)) (neg (trunc_w ramp)) in
    elim (Bool-cases (ltb_ℤ rpnz (pos 0) && ltb_ℤ feedback.error_w (neg deadband))) [
      | inl e ↦ (raw, rw (out, e))
      | inr e ↦ (max_ℤ raw lowest, rw (out, e))
    ]

-- Outside the deadband the next target is at most the maximum, given in whole watts.
pub candidate-le-max :
    (rpnz grid current deadband ramp highest lowest : ℤ)
    → IsWhole highest
    → (net_zero_feedback_state rpnz grid current deadband).in_deadband ≡ false
    → candidate_sp_net_zero rpnz grid current deadband ramp highest lowest ≤ℤ highest
candidate-le-max rpnz grid current deadband ramp highest lowest w out =
    let (x, e) = candidate-capped rpnz grid current deadband ramp highest lowest out in
    rw e (round_to-le-whole (min_ℤ x highest) highest w (min_ℤ_bounds x highest).1)

step_clamped_bounds :
    (step ramp : ℤ)
    → pos 0 ≤ℤ ramp
    → (max_ℤ (min_ℤ step ramp) (neg ramp) ≤ℤ ramp)
      × (neg ramp ≤ℤ max_ℤ (min_ℤ step ramp) (neg ramp))
      × (pos 0 ≤ℤ step → pos 0 ≤ℤ max_ℤ (min_ℤ step ramp) (neg ramp))
      × (step ≤ℤ pos 0 → max_ℤ (min_ℤ step ramp) (neg ramp) ≤ℤ pos 0)
unfolding min_ℤ max_ℤ
step_clamped_bounds step ramp h = ground (arith, neg_parts ramp)

-- A step of the ramp is at most `ramp` and never passes the desired target.
pub ramp_iterate : ℕ → ℤ → ℤ → ℤ → ℤ
ramp_iterate zero current desired ramp = current
ramp_iterate (suc n) current desired ramp =
    ramp_iterate n (ramp_toward_target_w current desired ramp) desired ramp

ramp_step_closer :
    (current desired ramp : ℤ) (k : ℕ)
    → magnitude (desired -ℤ current) ≤ pos_part ramp + k
    → magnitude (desired -ℤ ramp_toward_target_w current desired ramp) ≤ k
unfolding ramp_toward_target_w
ramp_step_closer current desired ramp k h =
    let r = pos (pos_part ramp) in
    ground (
      arith,
      -ℤ_parts desired current,
      parts_disjoint (desired -ℤ current),
      -ℤ_parts desired desired,
      parts_disjoint (desired -ℤ desired),
      -ℤ_parts desired (current +ℤ r),
      parts_disjoint (desired -ℤ (current +ℤ r)),
      -ℤ_parts desired (current -ℤ r),
      parts_disjoint (desired -ℤ (current -ℤ r)),
      +ℤ_parts current r,
      -ℤ_parts current r,
      neg_parts r,
    )

-- A desired target within `n` ramps of the present one is reached in `n` steps.
pub ramp-reaches :
    (n : ℕ) (current desired ramp : ℤ)
    → magnitude (desired -ℤ current) ≤ pos_part ramp * n
    → ramp_iterate n current desired ramp ≡ desired
unfolding ramp_iterate
ramp-reaches zero current desired ramp h =
    eq_of_parts current desired (omega (arith, -ℤ_parts desired current))
ramp-reaches (suc n) current desired ramp h =
    ramp-reaches n (ramp_toward_target_w current desired ramp) desired ramp
      (ramp_step_closer current desired ramp (pos_part ramp * n) (omega arith))

-- A quantized absorb target of a device whose minimum is at most its maximum is 0, or lies between
-- the two and at most the larger of the request and the minimum.
pub quantize_absorb_bounds :
    (requested lowest highest step : ℤ)
    → pos_part lowest ≤ pos_part highest
    → let t = quantize_absorb_target_w requested lowest highest step in
      (t ≡ pos 0)
      ⊎ ((pos (pos_part lowest) ≤ℤ t)
          × (t ≤ℤ pos (pos_part highest))
          × ((t ≤ℤ pos (pos_part requested)) ⊎ (t ≡ pos (pos_part lowest))))
unfolding quantize_absorb_target_w min_ℤ
quantize_absorb_bounds requested lowest highest step h = ground (
  arith,
  floor_to_bounds (pos_part step) (pos_part requested - pos_part lowest),
  floor_to_bounds (pos_part step) (pos_part highest - pos_part lowest),
  floor_to_bounds (pos_part step) (pos_part lowest - pos_part lowest),
)
