-- ===== src/HaeoPlan/Largest.antt =====
-- Theorems on HaeoPlan: the primary consumer of a plan.
use ha_ems.Prelude.{
  ℕ, true, ◌&&◌, not, Option, List, [], ◌∷◌, String, same, same_iff, Memᴰ, All, has_id, ℤ, pos,
  ltb_ℤ, eqb_ℤ, if◌then◌else◌, ◌≤ℤ◌, ◌≡◌, refl, arith, inl, inr, Bool-cases, sym, subst,
  eq_of_parts,
}
use ha_ems.Domain.Profiles.{Profiles, is_horizon_by_haeo, is_net_zero, is_normal_limits}
use ha_ems.Domain.Models.{CoreConfig, HaeoTargets, HaeoNetZeroPlan}
use ha_ems.HaeoPlan.{
  PlanCandidate, primary_candidates, exceeds, max_candidate, max_limit, tied_ids, choose_primary,
  forecast_plan, compute_haeo_net_zero_plan, device_limits_w, quarter_key_for_ts, same_quarter,
}

-- One of the candidates with this identifier has the largest key of all.
pub record IsLargest (cs : List PlanCandidate) (device_id : String) : Type 0 where
  pub candidate : PlanCandidate
  pub member : Memᴰ candidate cs
  pub id : candidate.device_id ≡ device_id
  pub largest : All (λ u. u.key ≤ℤ candidate.key) cs

-- No candidate's key is above `limit`.
abbrev AllAtMost : ℤ → List PlanCandidate → Type 0
AllAtMost limit cs = All (λ u. u.key ≤ℤ limit) cs

max_limit-covers :
    (limit : ℤ) (cs : List PlanCandidate)
    → (limit ≤ℤ max_limit limit cs) × AllAtMost (max_limit limit cs) cs
unfolding max_limit
max_limit-covers limit [] = (ground arith, tt)
max_limit-covers limit (c ∷ cs) =
    let raised = if ltb_ℤ limit c.key then c.key else limit in
    let (le, all) = max_limit-covers raised cs in (ground (arith, le), (ground (arith, le), all))

tied_ids-IsLargest :
    (x : String) (limit : ℤ) (cs : List PlanCandidate)
    → has_id x (tied_ids limit cs) ≡ true
    → (c : PlanCandidate) × Memᴰ c cs × (c.device_id ≡ x) × (c.key ≡ limit)
unfolding tied_ids has_id
tied_ids-IsLargest x limit [] e = absurd (ground arith)
tied_ids-IsLargest x limit (c ∷ cs) e =
    elim (Bool-cases (eqb_ℤ c.key limit && same x c.device_id)) [
      | inl here ↦ (
        c,
        Memᴰ.head refl,
        ground (arith, same_iff x c.device_id),
        eq_of_parts c.key limit (ground arith),
      )
      | inr there ↦
          let (d, member, id, key) = tied_ids-IsLargest x limit cs (ground arith) in
          (d, Memᴰ.tail member, id, key)
    ]

-- A candidate of the list that has the largest key.
abbrev IsMaxOf : List PlanCandidate → PlanCandidate → Type 0
IsMaxOf cs r = Memᴰ r cs × AllAtMost r.key cs

skip_second :
    {r a b : PlanCandidate} {us : List PlanCandidate} → Memᴰ r (a ∷ us) → Memᴰ r (a ∷ b ∷ us)
skip_second (Memᴰ.head e) = Memᴰ.head e
skip_second (Memᴰ.tail m) = Memᴰ.tail (Memᴰ.tail m)

max_candidate-step :
    (best c : PlanCandidate) (cs : List PlanCandidate)
    → max_candidate best (c ∷ cs) ≡ max_candidate (if exceeds c best then c else best) cs
unfolding max_candidate
max_candidate-step best c cs = refl

max_candidate-IsMaxOf :
    (best : PlanCandidate) (cs : List PlanCandidate) → IsMaxOf (best ∷ cs) (max_candidate best cs)
max_candidate-IsMaxOf best [] = unfold max_candidate in (Memᴰ.head refl, (ground arith, tt))
max_candidate-IsMaxOf best (c ∷ cs) = elim (Bool-cases (exceeds c best)) [
  | inl e ↦
      let (member, all) = max_candidate-IsMaxOf c cs in
      let step : max_candidate best (c ∷ cs) ≡ max_candidate c cs =
        rw (max_candidate-step best c cs, e) refl in
      subst (IsMaxOf (best ∷ c ∷ cs)) (sym step) (Memᴰ.tail member, (ground (arith, all.0), all))
  | inr e ↦
      let (member, all) = max_candidate-IsMaxOf best cs in
      let step : max_candidate best (c ∷ cs) ≡ max_candidate best cs =
        rw (max_candidate-step best c cs, e) refl in
      subst (IsMaxOf (best ∷ c ∷ cs)) (sym step)
        (skip_second member, (all.0, (ground (arith, all.0), all.1)))
]

choose_primary-IsLargest :
    (previous : String) (c : PlanCandidate) (cs : List PlanCandidate)
    → IsLargest (c ∷ cs) (choose_primary previous c cs).device_id
unfolding choose_primary
choose_primary-IsLargest previous c cs =
    let limit = max_limit (pos 0) (c ∷ cs) in
    elim (Bool-cases (has_id previous (tied_ids limit (c ∷ cs)))) [
      | inl e ↦
          let (d, member, id, key) = tied_ids-IsLargest previous limit (c ∷ cs) e in
          rw e (record {
            candidate = d;
            member = member;
            id = id;
            largest =
                subst (λ k. AllAtMost k (c ∷ cs)) (sym key) (max_limit-covers (pos 0) (c ∷ cs)).1;
          })
      | inr e ↦
          let (member, all) = max_candidate-IsMaxOf c cs in
          rw e
            (record { candidate = max_candidate c cs; member = member; id = refl; largest = all })
    ]

forecast_plan-IsLargest :
    (cfg : CoreConfig) (haeo : HaeoTargets) (quarter_key : ℕ) (previous_quarter : Option ℕ)
    (previous_primary : String) (limits : List (String × ℤ)) (cs : List PlanCandidate)
    → let plan = forecast_plan cfg haeo quarter_key previous_quarter previous_primary limits cs in
      plan.active ≡ true → IsLargest cs plan.primary_consuming_device_id
unfolding forecast_plan
forecast_plan-IsLargest cfg haeo q pq pp [] cs e = absurd (cc e)
forecast_plan-IsLargest cfg haeo q pq pp (l ∷ ls) [] e = absurd (cc e)
forecast_plan-IsLargest cfg haeo q pq pp (l ∷ ls) (c ∷ cs) e = choose_primary-IsLargest pp c cs

abbrev made_plan : CoreConfig → HaeoTargets → ℕ → Option ℕ → String → HaeoNetZeroPlan
made_plan cfg haeo now_ts previous_quarter previous_primary =
    forecast_plan cfg haeo (quarter_key_for_ts now_ts) previous_quarter previous_primary
      (device_limits_w haeo cfg.devices) (primary_candidates haeo 0 cfg.devices)

active_plan_lem :
    (profiles : Profiles) (cfg : CoreConfig) (haeo : HaeoTargets) (now_ts : ℕ)
    (previous_quarter : Option ℕ) (previous_primary : String)
    → let plan =
        compute_haeo_net_zero_plan profiles cfg haeo now_ts previous_quarter previous_primary in
      plan.active ≡ true
      → ((is_horizon_by_haeo profiles.control
            && is_net_zero profiles.goal
            && is_normal_limits profiles.guard
            && haeo.fresh)
          ≡ true)
        × (plan ≡ made_plan cfg haeo now_ts previous_quarter previous_primary)
unfolding compute_haeo_net_zero_plan
active_plan_lem profiles cfg haeo now_ts previous_quarter previous_primary e = ground arith

forecast_plan_keeps :
    (cfg : CoreConfig) (haeo : HaeoTargets) (quarter_key : ℕ) (previous_quarter : Option ℕ)
    (previous_primary : String) (limits : List (String × ℤ)) (cs : List PlanCandidate)
    → let plan = forecast_plan cfg haeo quarter_key previous_quarter previous_primary limits cs in
      plan.active ≡ true
      → has_id previous_primary (tied_ids (max_limit (pos 0) cs) cs) ≡ true
      → (plan.primary_consuming_device_id ≡ previous_primary)
        × (plan.changed ≡ not (same_quarter previous_quarter quarter_key))
unfolding forecast_plan choose_primary
forecast_plan_keeps cfg haeo q pq pp [] cs e tied = absurd (cc e)
forecast_plan_keeps cfg haeo q pq pp (l ∷ ls) [] e tied = absurd (cc e)
forecast_plan_keeps cfg haeo q pq pp (l ∷ ls) (c ∷ cs) e tied = ground (arith, same_iff pp pp)

-- An active plan is made only under HORIZON_BY_HAEO, NET_ZERO and NORMAL_LIMITS with a fresh HAEO
-- forecast, and its primary is one of the regulating devices with a target, none of which has a
-- larger limit.
pub active_plan-IsLargest :
    (profiles : Profiles) (cfg : CoreConfig) (haeo : HaeoTargets) (now_ts : ℕ)
    (previous_quarter : Option ℕ) (previous_primary : String)
    → (compute_haeo_net_zero_plan profiles cfg haeo now_ts previous_quarter previous_primary).active
      ≡ true
    → ((is_horizon_by_haeo profiles.control
          && is_net_zero profiles.goal
          && is_normal_limits profiles.guard
          && haeo.fresh)
        ≡ true)
      × IsLargest
          (primary_candidates haeo 0 cfg.devices)
          (compute_haeo_net_zero_plan profiles cfg haeo now_ts previous_quarter
            previous_primary).primary_consuming_device_id
active_plan-IsLargest profiles cfg haeo now_ts pq pp e =
    let (conditions, made) = active_plan_lem profiles cfg haeo now_ts pq pp e in
    (conditions, rw made (forecast_plan-IsLargest cfg haeo _ pq pp _ _ (rw (← made) e)))

-- A previous primary that is among the candidates of the largest limit stays the primary of an
-- active plan, which counts as changed only in a new quarter.
pub active_plan_keeps_primary :
    (profiles : Profiles) (cfg : CoreConfig) (haeo : HaeoTargets) (now_ts : ℕ)
    (previous_quarter : Option ℕ) (previous_primary : String)
    → (compute_haeo_net_zero_plan profiles cfg haeo now_ts previous_quarter previous_primary).active
      ≡ true
    → has_id previous_primary (
        tied_ids
          (max_limit (pos 0) (primary_candidates haeo 0 cfg.devices))
          (primary_candidates haeo 0 cfg.devices))
      ≡ true
    → ((compute_haeo_net_zero_plan profiles cfg haeo now_ts previous_quarter
          previous_primary).primary_consuming_device_id
        ≡ previous_primary)
      × ((compute_haeo_net_zero_plan profiles cfg haeo now_ts previous_quarter
            previous_primary).changed
          ≡ not (same_quarter previous_quarter (quarter_key_for_ts now_ts)))
active_plan_keeps_primary profiles cfg haeo now_ts pq pp e tied =
    let (conditions, made) = active_plan_lem profiles cfg haeo now_ts pq pp e in
    rw made (forecast_plan_keeps cfg haeo _ pq pp _ _ (rw (← made) e) tied)
