-- ===== src/Domain/EvPower.antt =====
-- modules/ems_core/domain/ev_power.py: watts and amperes of an EV charger.
-- Powers are in milliwatts, voltages in millivolts and currents in milliamperes.
pub mod Limits
use ha_ems.Prelude.{
  ℕ, ◌+◌, ◌-◌, ◌*◌, ◌/◌, Bool, true, false, not, ltb, ℤ, pos, neg, pos_part, neg_part, sub_ℕ, min_ℤ,
  max_ℤ, round_div, ◌⊎◌, inl, inr, if◌then◌else◌, leb_ℤ,
}

-- The messages of the ValueError that a conversion raises.
pub data EvPowerError : Type 0 where
  min_absorb_w_not_positive max_absorb_w_not_positive : EvPowerError
  phases_not_positive voltage_v_not_positive current_step_a_not_positive : EvPowerError
  limits_not_representable : EvPowerError

pub record EvCharger : Type 0 where
  pub phases : ℕ
  pub voltage_v : ℕ
  pub current_step_a : ℕ

abbrev pub positive : ℕ → Bool
positive n = ltb 0 n

-- ev_per_amp_w, in milliwatts per ampere, of parameters that passed their checks.
unfoldable pub ev_per_amp_w : EvCharger → ℕ
ev_per_amp_w c = c.phases * c.voltage_v

-- ev_per_amp_w and then the check of the step, in the order of the calls.
unfoldable pub check_charger : EvCharger → EvPowerError ⊎ ℕ
unfolding ev_per_amp_w
check_charger c =
    if not (positive c.phases)
    then inl EvPowerError.phases_not_positive
    else if not (positive c.voltage_v)
    then inl EvPowerError.voltage_v_not_positive
    else if not (positive c.current_step_a)
    then inl EvPowerError.current_step_a_not_positive
    else inr (ev_per_amp_w c * c.current_step_a)

-- ev_current_a_to_power_w, in microwatts.
unfoldable pub ev_current_a_to_power_w : ℤ → EvCharger → ℕ
ev_current_a_to_power_w current_a c = pos_part current_a * ev_per_amp_w c

-- math.ceil of the current over its step, as a current.
unfoldable pub ceil_to_step : ℕ → ℕ → ℕ → ℕ
ceil_to_step unit step power_w = (power_w * 1000 + unit - 1) / unit * step

unfoldable pub floor_to_step : ℕ → ℕ → ℕ → ℕ
floor_to_step unit step power_w = power_w * 1000 / unit * step

-- _quantize_to_supported_step of a power of either sign.
unfoldable pub quantize_to_supported_step : ℕ → ℕ → ℤ → ℤ
quantize_to_supported_step unit step power_w =
    sub_ℕ (round_div (pos_part power_w * 1000) unit * step)
      (round_div (neg_part power_w * 1000) unit * step)

unfoldable pub ev_min_current_a_from_min_absorb_w : ℕ → EvCharger → EvPowerError ⊎ ℕ
ev_min_current_a_from_min_absorb_w min_absorb_w c =
    if positive min_absorb_w
    then elim (check_charger c) [
      | inl e ↦ inl e
      | inr unit ↦ inr (ceil_to_step unit c.current_step_a min_absorb_w)
    ]
    else inl EvPowerError.min_absorb_w_not_positive

unfoldable pub ev_max_current_a_from_max_absorb_w : ℕ → EvCharger → EvPowerError ⊎ ℕ
ev_max_current_a_from_max_absorb_w max_absorb_w c =
    if positive max_absorb_w
    then elim (check_charger c) [
      | inl e ↦ inl e
      | inr unit ↦ inr (floor_to_step unit c.current_step_a max_absorb_w)
    ]
    else inl EvPowerError.max_absorb_w_not_positive

-- The last part of ev_power_w_to_current_a, with the two limits computed.
unfoldable pub clamp_current : EvCharger → ℤ → ℕ → ℕ → EvPowerError ⊎ ℤ
clamp_current c power_w min_current_a max_current_a =
    if ltb max_current_a min_current_a
    then inl EvPowerError.limits_not_representable
    else elim (check_charger c) [
      | inl e ↦ inl e
      | inr unit ↦ inr (
          min_ℤ
            (max_ℤ (quantize_to_supported_step unit c.current_step_a power_w) (pos min_current_a))
            (pos max_current_a))
    ]

unfoldable pub ev_power_w_to_current_a : ℤ → EvCharger → ℕ → ℕ → EvPowerError ⊎ ℤ
ev_power_w_to_current_a power_w c min_absorb_w max_absorb_w =
    elim (ev_min_current_a_from_min_absorb_w min_absorb_w c) [
      | inl e ↦ inl e
      | inr min_current_a ↦ elim (ev_max_current_a_from_max_absorb_w max_absorb_w c) [
        | inl e ↦ inl e
        | inr max_current_a ↦ clamp_current c power_w min_current_a max_current_a
      ]
    ]
