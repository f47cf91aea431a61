-- ===== src/NetZero/DerivedInputs.antt =====
-- modules/ems_core/net_zero/derived_inputs.py and balance.py: the quarter-hour balance.
pub mod Signs
use ha_ems.Prelude.{
  ◌≡◌, ◌≤◌, ℕ, ◌+◌, ◌-◌, ◌*◌, ◌%◌, Bool, true, false, Option, none, some, List, [], ◌∷◌, ◌++◌, ltb,
  leb, ℤ, pos, neg, pos_part, neg_part, sub_ℕ, ◌-ℤ◌, leb_ℤ, round_div, if◌then◌else◌,
}

-- The fields of Python's `datetime` that are read.
pub record DateTime : Type 0 where
  pub minute : ℕ
  pub second : ℕ
  pub microsecond : ℕ

-- The fields' ranges in Python's `datetime`.
pub record IsDateTime (t : DateTime) : Type 0 where
  pub minute_range : t.minute ≤ 59
  pub second_range : t.second ≤ 59
  pub microsecond_range : t.microsecond ≤ 999999

abbrev pub min_control_horizon_s : ℕ
min_control_horizon_s = 30000000

-- 0.130 kWh, in milliwatt-hours.
abbrev pub export_balance_stop_kwh : ℤ
export_balance_stop_kwh = pos 130000

-- In microseconds.
unfoldable pub seconds_until_next_quarter : DateTime → ℕ
seconds_until_next_quarter t =
    900000000 - (t.minute % 15 * 60000000 + t.second * 1000000 + t.microsecond)

unfoldable pub control_horizon_s : ℕ → ℕ
control_horizon_s remaining_s =
    if ltb remaining_s min_control_horizon_s then min_control_horizon_s else remaining_s

abbrev pub scale : ℕ → ℤ → ℤ
scale k z = sub_ℕ (pos_part z * k) (neg_part z * k)

-- `int(round(n / d))` watts of a fraction in watts, in milliwatts.
unfoldable pub round_ratio_w : ℤ → ℕ → ℤ
round_ratio_w n d = sub_ℕ (round_div (pos_part n) d * 1000) (round_div (neg_part n) d * 1000)

-- The target grid power is `target_numerator / horizon` milliwatts: an energy of 1 mWh over 1 µs is
-- 3.6e9 mW.
abbrev pub target_numerator : ℤ → ℤ
target_numerator quarter_energy_balance_kwh = neg (scale 3600000000 quarter_energy_balance_kwh)

unfoldable pub compute_rpnz_w : ℤ → ℕ → ℤ
compute_rpnz_w balance remaining_s =
    round_ratio_w (target_numerator balance) (control_horizon_s remaining_s * 1000)

unfoldable pub compute_required_power_w : ℤ → ℤ → ℕ → ℤ
compute_required_power_w balance grid_power_w remaining_s =
    if leb_ℤ export_balance_stop_kwh balance
    then pos 0
    else round_ratio_w
        (target_numerator balance -ℤ scale (control_horizon_s remaining_s) grid_power_w)
        (control_horizon_s remaining_s * 1000)

pub data InputQuality : Type 0 where
  ok degraded_missing_multiple_inputs degraded_missing_quarter_balance degraded_missing_grid_power :
      InputQuality

pub data InputWarning : Type 0 where
  missing_or_invalid_quarter_energy_balance_kwh missing_or_invalid_grid_power_w : InputWarning

-- A missing or unreadable value is `none`; it counts as 0 and is reported.
unfoldable pub coerce_float : Option ℤ → InputWarning → ℤ × Option InputWarning
coerce_float none warning = (pos 0, some warning)
coerce_float (some value) warning = (value, none)

abbrev pub to_list : Option InputWarning → List InputWarning
to_list none = []
to_list (some w) = w ∷ []

abbrev pub input_quality : Option InputWarning → Option InputWarning → InputQuality
input_quality (some _) (some _) = degraded_missing_multiple_inputs
input_quality (some _) none = degraded_missing_quarter_balance
input_quality none (some _) = degraded_missing_grid_power
input_quality none none = ok

pub record NetZeroDerivedInputs : Type 0 where
  pub remaining_quarter_s : ℕ
  pub control_horizon_s : ℕ
  pub rpnz_w : ℤ
  pub required_power_w : ℤ
  pub required_power_consumption_kw : ℤ
  pub input_quality : InputQuality
  pub input_warnings : List InputWarning

unfoldable pub derive_net_zero_inputs : Option ℤ → Option ℤ → DateTime → NetZeroDerivedInputs
unfolding coerce_float
derive_net_zero_inputs quarter_energy_balance_kwh grid_power_w now =
    let (balance, quarter_warning) =
      coerce_float quarter_energy_balance_kwh missing_or_invalid_quarter_energy_balance_kwh in
    let (grid, grid_warning) = coerce_float grid_power_w missing_or_invalid_grid_power_w in
    let remaining_s = seconds_until_next_quarter now in
    let required_power_w = compute_required_power_w balance grid remaining_s in
    record {
      remaining_quarter_s = remaining_s;
      control_horizon_s = control_horizon_s remaining_s;
      rpnz_w = compute_rpnz_w balance remaining_s;
      required_power_w = required_power_w;
      required_power_consumption_kw = required_power_w;
      input_quality = input_quality quarter_warning grid_warning;
      input_warnings = to_list quarter_warning ++ to_list grid_warning;
    }
