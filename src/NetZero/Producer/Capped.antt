-- ===== src/NetZero/Producer/Capped.antt =====
-- Lemmas on NetZero/Producer: a limit of every ceiling limits the shares and the targets.
use ha_ems.Prelude.{
  ℕ, ◌-◌, ◌==◌, ◌≤◌, ◌≡◌, true, List, [], ◌∷◌, map, All, ℤ, pos, neg, pos_part, neg_part, ◌≤ℤ◌,
  arith, Bool-cases, inl, inr, +ℤ_parts, -ℤ_parts, neg_parts,
}
use ha_ems.Domain.Profiles.{Profiles, is_strict_limits, is_battery_protect}
use ha_ems.Domain.Models.{DeviceControlContext, GlobalConfig}
use ha_ems.NetZero.Feedback.{ramp_toward_target_w}
use ha_ems.NetZero.Producer.{
  producer_effective_hard_ceiling_w, Share, closed_share, open_producer, allocate_loop,
  allocate_producer_dispatch, producer_transient_target_w, quantize_produce_magnitude_toward_zero,
}
use ha_ems.NetZero.Producer.Dispatch.{quantize_le, opening_bounds, Opening-cases}

abbrev pub IsCapped : ℕ → Share → Type 0
IsCapped limit s = s.allocated_w ≤ limit

closed-IsCapped :
    (limit : ℕ) (ceiling : DeviceControlContext → ℕ) (cs : List DeviceControlContext)
    → All (IsCapped limit) (map (closed_share ceiling) cs)
closed-IsCapped limit ceiling [] = tt
closed-IsCapped limit ceiling (c ∷ cs) = (omega arith, closed-IsCapped limit ceiling cs)

allocate_loop-IsCapped :
    (limit : ℕ) (ceiling : DeviceControlContext → ℕ)
    → ((c : DeviceControlContext) → ceiling c ≤ limit)
    → (cs : List DeviceControlContext) (need : ℕ)
    → All (IsCapped limit) (allocate_loop ceiling cs need).shares
unfolding allocate_loop
allocate_loop-IsCapped limit ceiling le [] need = tt
allocate_loop-IsCapped limit ceiling le (c ∷ cs) need = elim (Bool-cases (need == 0)) [
  | inl z ↦ rw z (omega arith, closed-IsCapped limit ceiling cs)
  | inr z ↦ elim (Opening-cases (open_producer ceiling c need)) [
    | inl (inl e) ↦ rw (z, e) (omega arith, allocate_loop-IsCapped limit ceiling le cs need)
    | inl (inr e) ↦ rw (z, e) (omega arith, allocate_loop-IsCapped limit ceiling le cs need)
    | inr (inl (w, e)) ↦
        rw (z, e)
          (
            omega (arith, opening_bounds ceiling c need w (inl e), le c),
            closed-IsCapped limit ceiling cs,
          )
    | inr (inr (w, e)) ↦
        rw (z, e)
          (
            omega (arith, opening_bounds ceiling c need w (inr e), le c),
            allocate_loop-IsCapped limit ceiling le cs (need - w),
          )
  ]
]

pub allocation-IsCapped :
    (limit : ℕ) (profiles : Profiles) (cfg : GlobalConfig)
    → ((c : DeviceControlContext) → producer_effective_hard_ceiling_w profiles cfg c ≤ limit)
    → (producers : List DeviceControlContext) (requested_w : ℤ)
    → All (IsCapped limit) (allocate_producer_dispatch profiles cfg producers requested_w).shares
unfolding allocate_producer_dispatch
allocation-IsCapped limit profiles cfg le producers requested_w =
    allocate_loop-IsCapped limit (producer_effective_hard_ceiling_w profiles cfg) le producers
      (pos_part requested_w)

pub strict_ceiling :
    (profiles : Profiles) (cfg : GlobalConfig) (c : DeviceControlContext)
    → is_strict_limits profiles.guard ≡ true
    → producer_effective_hard_ceiling_w profiles cfg c ≤ pos_part cfg.strict_limit_w
unfolding producer_effective_hard_ceiling_w
strict_ceiling profiles cfg c strict = ground (
  arith,
  quantize_le (pos_part cfg.strict_limit_w) c.step_w,
  quantize_le (pos_part c.max_produce_w) c.step_w,
)

pub protected_ceiling :
    (profiles : Profiles) (cfg : GlobalConfig) (c : DeviceControlContext)
    → is_battery_protect profiles.guard ≡ true
    → producer_effective_hard_ceiling_w profiles cfg c ≤ 0
unfolding producer_effective_hard_ceiling_w
protected_ceiling profiles cfg c protect = ground arith

ramp_within :
    (current : ℤ) (allocated : ℕ) (ramp limit : ℤ)
    → allocated ≤ pos_part limit
    → neg limit ≤ℤ current
    → current ≤ℤ limit
    → pos 0 ≤ℤ limit
    → (neg limit ≤ℤ ramp_toward_target_w current (neg (pos allocated)) ramp)
      × (ramp_toward_target_w current (neg (pos allocated)) ramp ≤ℤ limit)
unfolding ramp_toward_target_w
ramp_within current allocated ramp limit a lower upper h =
    let desired = neg (pos allocated) in
    let r = pos (pos_part ramp) in
    ground (
      arith,
      neg_parts limit,
      neg_parts (pos allocated),
      neg_parts r,
      -ℤ_parts desired current,
      +ℤ_parts current r,
      -ℤ_parts current r,
    )

-- A target that ramps from within a limit to a share within it stays within it.
pub transient_within :
    (cfg : GlobalConfig) (c : DeviceControlContext) (allocated : ℕ) (limit : ℤ)
    → allocated ≤ pos_part limit
    → neg limit ≤ℤ c.current_control_target_w
    → c.current_control_target_w ≤ℤ limit
    → pos 0 ≤ℤ limit
    → (neg limit ≤ℤ producer_transient_target_w cfg c allocated)
      × (producer_transient_target_w cfg c allocated ≤ℤ limit)
unfolding producer_transient_target_w
transient_within cfg c allocated limit a lower upper h =
    let t = ramp_toward_target_w c.current_control_target_w (neg (pos allocated)) cfg.ramp_w in
    let (low, high) =
      ramp_within c.current_control_target_w allocated cfg.ramp_w limit a lower upper h in
    let q = quantize_produce_magnitude_toward_zero (neg_part t) c.step_w in
    ground (arith, quantize_le (neg_part t) c.step_w, low, high, neg_parts (pos q), neg_parts limit)
