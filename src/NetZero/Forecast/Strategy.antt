-- ===== src/NetZero/Forecast/Strategy.antt =====
-- Theorems on NetZero/Forecast: the surplus policy and the strategies of load_projection.py.
use ha_ems.Prelude.{◌≡◌, Bool, true, false, ◌||◌, pos, if◌then◌else◌, arith, ◌⊎◌}
use ha_ems.Domain.Profiles.{
  ForecastProfile, Profiles, is_manual, is_manual_safe, is_automatic, is_horizon_by_haeo,
  is_net_zero, is_degraded, is_normal_limits, is_no_forecast,
}
use ha_ems.Domain.Models.{HaeoTargets}
use ha_ems.NetZero.Forecast.{
  net_zero_surplus_policy_active, EvContext, ev_strategy_target_w, limit_of, on,
  relay_strategy_command,
}

-- While the surplus policy is active the goal is NET_ZERO, the guard is NORMAL_LIMITS, and the
-- control is AUTOMATIC without a forecast or HORIZON_BY_HAEO with an active plan.
pub surplus_policy_active_needs :
    (p : Profiles) (effective_fc : ForecastProfile) (plan_active : Bool)
    → net_zero_surplus_policy_active p effective_fc plan_active ≡ true
    → (is_net_zero p.goal ≡ true)
      × (is_normal_limits p.guard ≡ true)
      × (((is_automatic p.control ≡ true) × (is_no_forecast effective_fc ≡ true))
          ⊎ ((is_horizon_by_haeo p.control ≡ true) × (plan_active ≡ true)))
unfolding net_zero_surplus_policy_active
surplus_policy_active_needs p effective_fc plan_active h = ground arith

-- The EV's strategic target is 0, its maximum, or the positive power of its forecast, and a
-- degraded guard makes it 0.
pub ev_strategy_range :
    (p : Profiles) (ev : EvContext) (haeo : HaeoTargets) (burn_active : Bool)
    → let t = ev_strategy_target_w p ev haeo burn_active in
      ((t ≡ pos 0)
        ⊎ ((t ≡ ev.max_absorb_w) ⊎ (t ≡ limit_of ev.device_id haeo.device_target_kw_by_id)))
      × ((is_degraded p.guard ≡ false) ⊎ (t ≡ pos 0))
unfolding ev_strategy_target_w
ev_strategy_range p ev haeo burn_active = ground arith

-- Under NET_ZERO outside manual control an EV charges exactly when it is forced or its surplus is
-- active, unless the guard is degraded.
pub ev_strategy_net_zero :
    (p : Profiles) (ev : EvContext) (haeo : HaeoTargets) (burn_active : Bool)
    → is_net_zero p.goal ≡ true
    → is_manual p.control ≡ false
    → is_manual_safe p.control ≡ false
    → is_degraded p.guard ≡ false
    → ev_strategy_target_w p ev haeo burn_active
      ≡ (if ev.force_on || burn_active then ev.max_absorb_w else pos 0)
unfolding ev_strategy_target_w
ev_strategy_net_zero p ev haeo burn_active g m s d = ground arith

-- A relay is switched on only by the user's force, or under NET_ZERO by an active surplus that is
-- allowed while the guard is not degraded.
pub relay_on_needs :
    (p : Profiles) (allowed force_on active : Bool)
    → relay_strategy_command p allowed force_on active ≡ on
    → (force_on ≡ true)
      ⊎ ((is_net_zero p.goal ≡ true)
          × (is_degraded p.guard ≡ false)
          × (allowed ≡ true)
          × (active ≡ true))
unfolding relay_strategy_command
relay_on_needs p allowed force_on active h = ground arith
