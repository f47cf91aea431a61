-- ===== src/NetZero/Forecast.antt =====
-- modules/ems_core/net_zero/engine.py: which forecast counts, the dominant limitation, and when
-- the surplus policy is active. modules/ems_core/net_zero/load_projection.py: the EV and relay
-- strategies.
pub mod Strategy
use ha_ems.Prelude.{
  Bool, true, false, ◌&&◌, ◌||◌, not, List, [], ◌∷◌, String, same, ℤ, pos, pos_part, ltb_ℤ,
  if◌then◌else◌,
}
use ha_ems.Domain.Profiles.{
  ControlProfile, GoalProfile, ForecastProfile, GuardProfile, DominantLimitation, Profiles,
  is_manual, is_manual_safe, is_automatic, is_horizon_by_haeo, is_net_zero, is_max_export,
  is_cheap_grid_charge, is_haeo, is_no_forecast, is_normal_limits, is_strict_limits,
  is_battery_protect, is_degraded,
}
use ha_ems.Domain.Models.{HaeoTargets}

unfoldable pub configured_forecast : ControlProfile → ForecastProfile → ForecastProfile
configured_forecast control forecast_profile =
    if is_manual control || is_manual_safe control
    then ForecastProfile.none
    else if is_haeo forecast_profile
    then ForecastProfile.haeo
    else if is_no_forecast forecast_profile && is_horizon_by_haeo control
    then ForecastProfile.haeo
    else ForecastProfile.none

unfoldable pub effective_forecast : ForecastProfile → Bool → ForecastProfile
effective_forecast configured haeo_fresh =
    if is_haeo configured && haeo_fresh then ForecastProfile.haeo else ForecastProfile.none

unfoldable pub dominant_limitation :
    Profiles → ForecastProfile → ForecastProfile → DominantLimitation
dominant_limitation profiles configured_fc effective_fc =
    if is_degraded profiles.guard
    then DominantLimitation.system_degraded
    else if is_battery_protect profiles.guard
    then DominantLimitation.battery_soc_limit
    else if is_manual profiles.control
    then DominantLimitation.user_manual_override
    else if is_manual_safe profiles.control
    then DominantLimitation.manual_safe_active
    else if is_strict_limits profiles.guard
    then DominantLimitation.strict_power_limits
    else if is_haeo configured_fc && not (is_haeo effective_fc)
    then DominantLimitation.forecast_fallback_local
    else DominantLimitation.optimization_active

unfoldable pub net_zero_surplus_policy_active : Profiles → ForecastProfile → Bool → Bool
net_zero_surplus_policy_active profiles effective_fc haeo_nz_plan_active =
    (is_automatic profiles.control
      && is_net_zero profiles.goal
      && is_normal_limits profiles.guard
      && is_no_forecast effective_fc)
    || (is_horizon_by_haeo profiles.control
        && is_net_zero profiles.goal
        && is_normal_limits profiles.guard
        && haeo_nz_plan_active)

-- `target_kw(device_id, 0.0)`: the planned power of a device, 0 if there is none.
unfoldable pub limit_of : String → List (String × ℤ) → ℤ
limit_of device_id [] = pos 0
limit_of device_id ((key, power) ∷ entries) =
    if same key device_id then power else limit_of device_id entries

-- The fields of an EV context that the strategies read.
pub record EvContext : Type 0 where
  pub device_id : String
  pub force_on : Bool
  pub max_absorb_w : ℤ
  pub min_absorb_w : ℤ

unfoldable pub ev_strategy_target_w : Profiles → EvContext → HaeoTargets → Bool → ℤ
unfolding limit_of
ev_strategy_target_w profiles ev haeo burn_active =
    let planned = limit_of ev.device_id haeo.device_target_kw_by_id in
    if is_degraded profiles.guard
    then pos 0
    else if is_manual profiles.control
    then (if ev.force_on then ev.max_absorb_w else pos 0)
    else if is_manual_safe profiles.control
    then (if ev.force_on then ev.max_absorb_w else pos 0)
    else if is_net_zero profiles.goal
    then (if ev.force_on || burn_active then ev.max_absorb_w else pos 0)
    else if is_max_export profiles.goal
    then (if ev.force_on then ev.max_absorb_w else pos 0)
    else if ev.force_on && is_cheap_grid_charge profiles.goal
    then ev.max_absorb_w
    else if is_haeo haeo.effective_forecast && is_cheap_grid_charge profiles.goal
    then (if ltb_ℤ (pos 0) planned then planned else pos 0)
    else if is_cheap_grid_charge profiles.goal
    then ev.max_absorb_w
    else pos 0

-- 1, 0 and -1 of the source: on, off, and leave the relay alone.
pub data RelayCommand : Type 0 where
  on off leave : RelayCommand

abbrev pub on_if : Bool → RelayCommand
on_if true = on
on_if false = off

unfoldable pub relay_strategy_command : Profiles → Bool → Bool → Bool → RelayCommand
relay_strategy_command profiles surplus_allowed force_on net_zero_active =
    if is_manual profiles.control
    then on_if force_on
    else if is_manual_safe profiles.control
    then on_if force_on
    else if is_degraded profiles.guard
    then leave
    else if is_cheap_grid_charge profiles.goal
    then off
    else if is_net_zero profiles.goal
    then (if force_on then on else if not surplus_allowed then off else on_if net_zero_active)
    else if is_max_export profiles.goal
    then off
    else leave
