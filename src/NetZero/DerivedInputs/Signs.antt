-- ===== src/NetZero/DerivedInputs/Signs.antt =====
-- Theorems on NetZero/DerivedInputs: the quarter and the two powers derived from it.
use ha_ems.Prelude.{
  ℕ, ◌+◌, ◌*◌, ◌≤◌, ◌<◌, ◌≡◌, Option, ℤ, pos, pos_part, neg_part, ◌≤ℤ◌, round_div, arith, neg_parts,
  ◌⊎◌, length, is_some, if◌then◌else◌,
}
use ha_ems.NetZero.DerivedInputs.{
  DateTime, IsDateTime, seconds_until_next_quarter, control_horizon_s, compute_rpnz_w,
  compute_required_power_w, round_ratio_w, scale, target_numerator, derive_net_zero_inputs,
  export_balance_stop_kwh, ok,
}

-- For a time of day the time to the next quarter is positive and at most 15 minutes, and the control horizon lies
-- between 30 s and 15 minutes.
pub quarter_bounds :
    (t : DateTime)
    → IsDateTime t
    → (0 < seconds_until_next_quarter t)
      × (seconds_until_next_quarter t ≤ 900000000)
      × (30000000 ≤ control_horizon_s (seconds_until_next_quarter t))
      × (control_horizon_s (seconds_until_next_quarter t) ≤ 900000000)
unfolding seconds_until_next_quarter control_horizon_s
quarter_bounds t h = ground arith

round_div_zero : (d : ℕ) → round_div 0 d ≡ 0
unfolding round_div
round_div_zero d = ground arith

round_ratio_w_nonneg : (n : ℤ) (d : ℕ) → neg_part n ≡ 0 → pos 0 ≤ℤ round_ratio_w n d
unfolding round_ratio_w
round_ratio_w_nonneg n d h = rw (h, round_div_zero) (ground arith)

round_ratio_w_nonpos : (n : ℤ) (d : ℕ) → pos_part n ≡ 0 → round_ratio_w n d ≤ℤ pos 0
unfolding round_ratio_w
round_ratio_w_nonpos n d h = rw (h, round_div_zero) (ground arith)

-- A surplus of energy in the quarter asks for a grid power of at most 0.
pub rpnz_of_surplus :
    (balance : ℤ) (remaining_s : ℕ) → pos 0 ≤ℤ balance → compute_rpnz_w balance remaining_s ≤ℤ pos 0
unfolding compute_rpnz_w
rpnz_of_surplus balance remaining_s h =
    round_ratio_w_nonpos (target_numerator balance) (control_horizon_s remaining_s * 1000)
      (ground (arith, neg_parts (scale 3600000000 balance)))

-- A deficit of energy in the quarter asks for a grid power of at least 0.
pub rpnz_of_deficit :
    (balance : ℤ) (remaining_s : ℕ) → balance ≤ℤ pos 0 → pos 0 ≤ℤ compute_rpnz_w balance remaining_s
unfolding compute_rpnz_w
rpnz_of_deficit balance remaining_s h =
    round_ratio_w_nonneg (target_numerator balance) (control_horizon_s remaining_s * 1000)
      (ground (arith, neg_parts (scale 3600000000 balance)))

-- At an export balance of 0.130 kWh or more nothing is required, whatever the grid power.
pub required_power_stop :
    (balance grid : ℤ) (remaining_s : ℕ)
    → export_balance_stop_kwh ≤ℤ balance
    → compute_required_power_w balance grid remaining_s ≡ pos 0
unfolding compute_required_power_w
required_power_stop balance grid remaining_s h = ground arith

-- The quality is `ok` exactly when both inputs are known, and one warning is kept for each input
-- that is not.
pub quality_lem :
    (balance grid : Option ℤ) (t : DateTime)
    → let d = derive_net_zero_inputs balance grid t in
      ((d.input_quality ≡ ok) ⊎ (0 < length d.input_warnings))
      × (length d.input_warnings
          ≡ (if is_some balance then 0 else 1) + (if is_some grid then 0 else 1))
unfolding derive_net_zero_inputs
quality_lem balance grid t = ground arith
