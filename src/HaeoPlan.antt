-- ===== src/HaeoPlan.antt =====
-- modules/ems_core/integrations/haeo_net_zero_plan.py: the plan that a HAEO forecast makes for the
-- quarter. The devices of the configuration stand in their order, one for each identifier.
pub mod Largest
use ha_ems.Prelude.{
  ℕ, ◌+◌, ◌*◌, ◌/◌, ◌==◌, Bool, true, false, ◌&&◌, ◌||◌, not, Option, none, some, List, [], ◌∷◌,
  String, same, has_id, ltb, ℤ, pos, pos_part, ltb_ℤ, eqb_ℤ, round_to, if◌then◌else◌,
}
use ha_ems.Domain.Profiles.{Profiles, is_horizon_by_haeo, is_net_zero, is_normal_limits, is_haeo}
use ha_ems.Domain.Models.{CoreConfig, Device, HaeoTargets, HaeoNetZeroPlan, PlanReason}
use ha_ems.NetZero.Forecast.{limit_of}

-- quarter_key_for_ts: the quarter's start in seconds, of a time in microseconds.
unfoldable pub quarter_key_for_ts : ℕ → ℕ
quarter_key_for_ts now_ts = now_ts / 900000000 * 900

-- The requested power, and the limit that the device's maximum leaves of it.
abbrev pub requested_w : HaeoTargets → Device → ℕ
requested_w haeo d = pos_part (round_to 1000 (limit_of d.device_id haeo.device_target_kw_by_id))

abbrev pub plan_limit_w : HaeoTargets → Device → ℕ
plan_limit_w haeo d =
    let highest = pos_part (round_to 1000 d.capabilities.max_absorb_w) in
    if ltb highest (requested_w haeo d) then highest else requested_w haeo d

abbrev pub is_planned : HaeoTargets → Device → Bool
is_planned haeo d = not (requested_w haeo d == 0) && not (plan_limit_w haeo d == 0)

unfoldable pub device_limits_w : HaeoTargets → List Device → List (String × ℤ)
device_limits_w haeo [] = []
device_limits_w haeo (d ∷ ds) =
    let rest = device_limits_w haeo ds in
    if is_planned haeo d then (d.device_id, pos (plan_limit_w haeo d)) ∷ rest else rest

-- A tuple `(key, -rank, device_id)`.
pub record PlanCandidate : Type 0 where
  pub key : ℤ
  pub rank : ℕ
  pub device_id : String

unfoldable pub primary_candidates : HaeoTargets → ℕ → List Device → List PlanCandidate
primary_candidates haeo rank [] = []
primary_candidates haeo rank (d ∷ ds) =
    let rest = primary_candidates haeo (rank + 1) ds in
    if is_planned haeo d
      && d.capabilities.can_absorb_w
      && d.capabilities.supports_primary_consuming_regulation
    then record { key = pos (plan_limit_w haeo d); rank = rank; device_id = d.device_id } ∷ rest
    else rest

unfoldable pub plan_surplus_candidates : HaeoTargets → String → ℕ → List Device → List PlanCandidate
plan_surplus_candidates haeo primary_id rank [] = []
plan_surplus_candidates haeo primary_id rank (d ∷ ds) =
    let rest = plan_surplus_candidates haeo primary_id (rank + 1) ds in
    if not (same d.device_id primary_id) && is_planned haeo d && d.policy.surplus_allowed
    then record { key = d.policy.priority; rank = rank; device_id = d.device_id } ∷ rest
    else rest

-- Python's order of the tuples, for candidates of different ranks.
abbrev pub exceeds : PlanCandidate → PlanCandidate → Bool
exceeds c best = ltb_ℤ best.key c.key || (eqb_ℤ c.key best.key && ltb c.rank best.rank)

-- `max(candidates)`.
unfoldable pub max_candidate : PlanCandidate → List PlanCandidate → PlanCandidate
max_candidate best [] = best
max_candidate best (c ∷ cs) = max_candidate (if exceeds c best then c else best) cs

unfoldable pub max_limit : ℤ → List PlanCandidate → ℤ
max_limit limit [] = limit
max_limit limit (c ∷ cs) = max_limit (if ltb_ℤ limit c.key then c.key else limit) cs

unfoldable pub tied_ids : ℤ → List PlanCandidate → List String
tied_ids limit [] = []
tied_ids limit (c ∷ cs) =
    let rest = tied_ids limit cs in if eqb_ℤ c.key limit then c.device_id ∷ rest else rest

abbrev pub is_several : List String → Bool
is_several (_ ∷ _ ∷ _) = true
is_several _ = false

pub record Primary : Type 0 where
  pub device_id : String
  pub reason : PlanReason

-- The previous primary where it is among the largest, else the largest of lowest rank.
unfoldable pub choose_primary : String → PlanCandidate → List PlanCandidate → Primary
choose_primary previous c cs =
    let tied = tied_ids (max_limit (pos 0) (c ∷ cs)) (c ∷ cs) in
    if has_id previous tied
    then record {
      device_id = previous;
      reason =
          if is_several tied
          then PlanReason.tie_keep_previous
          else PlanReason.largest_explicit_device_target;
    }
    else record {
      device_id = (max_candidate c cs).device_id;
      reason = PlanReason.largest_explicit_device_target;
    }

unfoldable pub preferred_surplus : List PlanCandidate → String
preferred_surplus [] = ""
preferred_surplus (c ∷ cs) = (max_candidate c cs).device_id

abbrev pub inactive_plan : ℕ → PlanReason → HaeoNetZeroPlan
inactive_plan quarter_key reason = record {
  active = false;
  quarter_key = quarter_key;
  primary_consuming_device_id = "";
  preferred_surplus_device_id = "";
  device_limits_w = [];
  reason = reason;
  changed = false;
}

abbrev pub same_quarter : Option ℕ → ℕ → Bool
same_quarter none quarter_key = false
same_quarter (some previous) quarter_key = previous == quarter_key

-- The part behind the conditions on the profiles and the forecast, of the limits and the candidates.
unfoldable pub forecast_plan :
    CoreConfig
    → HaeoTargets
    → ℕ
    → Option ℕ
    → String
    → List (String × ℤ)
    → List PlanCandidate
    → HaeoNetZeroPlan
forecast_plan cfg haeo quarter_key previous_quarter previous_primary [] cs =
    inactive_plan quarter_key PlanReason.zero_forecast
forecast_plan cfg haeo quarter_key previous_quarter previous_primary (limit ∷ limits) [] =
    inactive_plan quarter_key PlanReason.no_primary_consuming_candidate
forecast_plan cfg haeo quarter_key previous_quarter previous_primary (limit ∷ limits) (c ∷ cs) =
    let primary = choose_primary previous_primary c cs in
    record {
      active = true;
      quarter_key = quarter_key;
      primary_consuming_device_id = primary.device_id;
      preferred_surplus_device_id =
          preferred_surplus (plan_surplus_candidates haeo primary.device_id 0 cfg.devices);
      device_limits_w = limit ∷ limits;
      reason = primary.reason;
      changed =
          not (same_quarter previous_quarter quarter_key)
          || not (same primary.device_id previous_primary);
    }

unfoldable pub compute_haeo_net_zero_plan :
    Profiles → CoreConfig → HaeoTargets → ℕ → Option ℕ → String → HaeoNetZeroPlan
compute_haeo_net_zero_plan profiles cfg haeo now_ts previous_quarter previous_primary =
    let quarter_key = quarter_key_for_ts now_ts in
    if not (is_horizon_by_haeo profiles.control)
    then inactive_plan quarter_key PlanReason.control_not_horizon_by_haeo
    else if not (is_net_zero profiles.goal)
    then inactive_plan quarter_key PlanReason.goal_not_net_zero
    else if not (is_normal_limits profiles.guard)
    then inactive_plan quarter_key PlanReason.guard_not_normal_limits
    else if not (is_haeo haeo.configured_forecast)
    then inactive_plan quarter_key PlanReason.forecast_not_configured
    else if not (is_haeo haeo.effective_forecast) || not haeo.fresh
    then inactive_plan quarter_key PlanReason.forecast_not_effective
    else forecast_plan cfg haeo quarter_key previous_quarter previous_primary
        (device_limits_w haeo cfg.devices) (primary_candidates haeo 0 cfg.devices)
