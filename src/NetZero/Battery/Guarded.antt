-- ===== src/NetZero/Battery/Guarded.antt =====
-- Theorems on NetZero/Battery: _battery_target_and_authority.
use ha_ems.Prelude.{
  true, false, ℤ, pos, neg, min_ℤ, max_ℤ, round_to, ◌≡◌, refl, ◌≤ℤ◌, arith, neg_parts,
  whole-le-round_to,
}
use ha_ems.Domain.Profiles.{
  is_manual, is_manual_safe, is_net_zero, is_battery_protect, is_strict_limits, is_normal_limits,
}
use ha_ems.Domain.Models.{Device}
use ha_ems.NetZero.Feedback.{trunc_w}
use ha_ems.NetZero.Battery.{
  BatteryInput, battery_target_and_authority, guarded_target, battery_protect_charge_floor_w,
  within_strict_limit, Draft, net_zero_target, goal_target, plan_limit, activation_gate,
  surplus_target, configured_activation_w, not_negative, normal_limits_discharge_cap,
}

pub protect_charges_battery :
    (i : BatteryInput)
    → is_manual i.profiles.control ≡ false
    → is_battery_protect i.profiles.guard ≡ true
    → (battery_protect_charge_floor_w i.battery ≤ℤ (battery_target_and_authority i).target_w)
      × ((battery_target_and_authority i).write_enabled ≡ true)
unfolding battery_target_and_authority guarded_target max_ℤ
protect_charges_battery i m p = ground arith

within_strict_limit-bounds :
    (raw limit : ℤ)
    → pos 0 ≤ℤ limit
    → (within_strict_limit raw limit ≤ℤ limit) × (neg limit ≤ℤ within_strict_limit raw limit)
unfolding within_strict_limit min_ℤ max_ℤ
within_strict_limit-bounds raw limit h = ground (arith, neg_parts limit)

pub strict_limits_battery :
    (i : BatteryInput)
    → is_manual i.profiles.control ≡ false
    → is_strict_limits i.profiles.guard ≡ true
    → pos 0 ≤ℤ trunc_w i.cfg.strict_limit_w
    → let t = (battery_target_and_authority i).target_w in
      (t ≤ℤ trunc_w i.cfg.strict_limit_w) × (neg (trunc_w i.cfg.strict_limit_w) ≤ℤ t)
unfolding battery_target_and_authority guarded_target
strict_limits_battery i m p h = ground (
  arith,
  within_strict_limit-bounds (goal_target i).raw (trunc_w i.cfg.strict_limit_w) h,
  within_strict_limit-bounds (round_to 1000 i.current_sp_w) (trunc_w i.cfg.strict_limit_w) h,
)

not_negative-nonneg : (d : Draft) → pos 0 ≤ℤ (not_negative d).raw
unfolding not_negative
not_negative-nonneg d = ground arith

pub round_to_nonneg : (z : ℤ) → pos 0 ≤ℤ z → pos 0 ≤ℤ round_to 1000 z
round_to_nonneg z h = whole-le-round_to z (pos 0) (refl, refl) h

surplus_target_nonneg :
    (i : BatteryInput) (d : Draft)
    → pos 0 ≤ℤ i.battery.capabilities.max_absorb_w
    → pos 0 ≤ℤ d.raw
    → pos 0 ≤ℤ (surplus_target i d).raw
unfolding surplus_target min_ℤ max_ℤ
surplus_target_nonneg i d m h = ground (
  arith,
  round_to_nonneg (configured_activation_w i.battery_surplus_target),
  round_to_nonneg (pos 0) (ground arith),
  round_to_nonneg i.battery.capabilities.max_absorb_w m,
)

activation_gate_nonneg :
    (i : BatteryInput) (d : Draft) → pos 0 ≤ℤ d.raw → pos 0 ≤ℤ (activation_gate i d).raw
unfolding activation_gate
activation_gate_nonneg i d h = ground (arith, round_to_nonneg i.current_sp_w)

plan_limit_nonneg : (i : BatteryInput) (d : Draft) → pos 0 ≤ℤ d.raw → pos 0 ≤ℤ (plan_limit i d).raw
unfolding plan_limit
plan_limit_nonneg i d h = ground arith

net_zero_target_nonneg :
    (i : BatteryInput)
    → pos 0 ≤ℤ i.battery.capabilities.max_absorb_w
    → pos 0 ≤ℤ (net_zero_target i).raw
unfolding net_zero_target
net_zero_target_nonneg i m =
    plan_limit_nonneg i _
      (activation_gate_nonneg i _ (surplus_target_nonneg i _ m (not_negative-nonneg _)))

normal_limits_nonneg :
    (raw : ℤ) (d : Device) → pos 0 ≤ℤ raw → pos 0 ≤ℤ normal_limits_discharge_cap raw d
unfolding normal_limits_discharge_cap max_ℤ
normal_limits_nonneg raw d h = ground arith

-- Under NET_ZERO, NORMAL_LIMITS and neither manual control, the target of a battery whose maximum
-- absorbing power is not negative is not negative.
pub net_zero_never_discharges :
    (i : BatteryInput)
    → is_manual i.profiles.control ≡ false
    → is_manual_safe i.profiles.control ≡ false
    → is_net_zero i.profiles.goal ≡ true
    → is_normal_limits i.profiles.guard ≡ true
    → pos 0 ≤ℤ i.battery.capabilities.max_absorb_w
    → pos 0 ≤ℤ (battery_target_and_authority i).target_w
unfolding battery_target_and_authority guarded_target goal_target
net_zero_never_discharges i m s g n a = ground (
  arith,
  round_to_nonneg (normal_limits_discharge_cap (net_zero_target i).raw i.battery)
      (normal_limits_nonneg (net_zero_target i).raw i.battery (net_zero_target_nonneg i a)),
)
