-- ===== src/Tests/Plan.antt =====
-- A HAEO forecast for a battery and an EV.
use ha_ems.Prelude.{true, ◌&&◌, some, [], ◌∷◌, pos, ◌≡◌, refl, round_to, round_div}
use ha_ems.Domain.Profiles.{
  ControlProfile, ForecastProfile, Profiles, is_horizon_by_haeo, is_net_zero, is_normal_limits,
}
use ha_ems.Domain.Models.{CoreConfig, HaeoTargets}
use ha_ems.NetZero.Forecast.{limit_of}
use ha_ems.HaeoPlan.{compute_haeo_net_zero_plan, forecast_plan, primary_candidates, device_limits_w}
use ha_ems.HaeoPlan.Largest.{IsLargest, active_plan-IsLargest}
use ha_ems.Tests.Data.{net_zero_profiles, house_battery, house_globals}

abbrev horizon_profiles : Profiles
horizon_profiles = record net_zero_profiles { control = ControlProfile.horizon_by_haeo }

abbrev two_batteries : CoreConfig
two_batteries = record {
  global_config = house_globals;
  devices = house_battery ∷ record house_battery { device_id = "second" } ∷ [];
}

abbrev planned_targets : HaeoTargets
planned_targets = record {
  effective_forecast = ForecastProfile.haeo;
  configured_forecast = ForecastProfile.haeo;
  fresh = true;
  device_target_kw_by_id = ("battery", pos 3000000) ∷ ("second", pos 3000000) ∷ [];
}

active_plan-IsLargest_example :
    ((is_horizon_by_haeo horizon_profiles.control
        && is_net_zero horizon_profiles.goal
        && is_normal_limits horizon_profiles.guard
        && planned_targets.fresh)
      ≡ true)
    × IsLargest
        (primary_candidates planned_targets 0 two_batteries.devices)
        (compute_haeo_net_zero_plan horizon_profiles two_batteries planned_targets 5000000000
          (some 4500)
          "second").primary_consuming_device_id
unfolding compute_haeo_net_zero_plan forecast_plan primary_candidates device_limits_w limit_of
    round_to round_div
active_plan-IsLargest_example =
    active_plan-IsLargest horizon_profiles two_batteries planned_targets 5000000000 (some 4500)
      "second" refl
