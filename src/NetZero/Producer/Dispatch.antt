-- ===== src/NetZero/Producer/Dispatch.antt =====
-- Theorems on NetZero/Producer: _allocate_producer_dispatch.
use ha_ems.Prelude.{
  ℕ, ◌+◌, ◌-◌, ◌==◌, ◌≤◌, ◌≡◌, refl, true, false, List, [], ◌∷◌, map, All, ℤ, pos_part,
  floor_to_bounds, floor_to_idem, arith, Bool-cases, sym, ◌⊎◌, inl, inr,
}
use ha_ems.Domain.Profiles.{Profiles}
use ha_ems.Domain.Models.{DeviceControlContext, GlobalConfig}
use ha_ems.NetZero.Producer.{
  quantize_produce_magnitude_toward_zero, producer_effective_hard_ceiling_w, Share, closed_share,
  open_producer, Opening, passed_over, below_minimum, served_last, served, allocate_loop,
  allocate_producer_dispatch,
}

pub total_allocated : List Share → ℕ
total_allocated [] = 0
total_allocated (s ∷ ss) = s.allocated_w + total_allocated ss

pub quantize_le : (r : ℕ) (step : ℤ) → quantize_produce_magnitude_toward_zero r step ≤ r
unfolding quantize_produce_magnitude_toward_zero
quantize_le r step = ground (arith, floor_to_bounds (pos_part step) r)

total_allocated-closed :
    (ceiling : DeviceControlContext → ℕ) (cs : List DeviceControlContext)
    → total_allocated (map (closed_share ceiling) cs) ≡ 0
unfolding total_allocated
total_allocated-closed ceiling [] = refl
total_allocated-closed ceiling (c ∷ cs) = omega (arith, total_allocated-closed ceiling cs)

-- What one producer is given is at most the need and at most its ceiling.
pub opening_bounds :
    (ceiling : DeviceControlContext → ℕ) (c : DeviceControlContext) (need w : ℕ)
    → (open_producer ceiling c need ≡ served_last w) ⊎ (open_producer ceiling c need ≡ served w)
    → (w ≤ need) × (w ≤ ceiling c)
unfolding open_producer
opening_bounds ceiling c need w h =
    ground (arith, quantize_le need c.step_w, quantize_le (ceiling c) c.step_w)

pub Opening-cases :
    (o : Opening)
    → ((o ≡ passed_over) ⊎ (o ≡ below_minimum))
      ⊎ (((w : ℕ) × (o ≡ served_last w)) ⊎ ((w : ℕ) × (o ≡ served w)))
Opening-cases passed_over = inl (inl refl)
Opening-cases below_minimum = inl (inr refl)
Opening-cases (served_last w) = inr (inl (w, refl))
Opening-cases (served w) = inr (inr (w, refl))

allocate_loop-conserves :
    (ceiling : DeviceControlContext → ℕ) (cs : List DeviceControlContext) (need : ℕ)
    → total_allocated (allocate_loop ceiling cs need).shares
        + (allocate_loop ceiling cs need).unserved_w
      ≡ need
unfolding allocate_loop total_allocated
allocate_loop-conserves ceiling [] need = omega arith
allocate_loop-conserves ceiling (c ∷ cs) need =
    elim (Opening-cases (open_producer ceiling c need)) [
      | inl (inl e) ↦
          ground (arith, total_allocated-closed ceiling cs, allocate_loop-conserves ceiling cs need)
      | inl (inr e) ↦
          ground (arith, total_allocated-closed ceiling cs, allocate_loop-conserves ceiling cs need)
      | inr (inl (w, e)) ↦
          ground (arith, opening_bounds ceiling c need w (inl e), total_allocated-closed ceiling cs)
      | inr (inr (w, e)) ↦ ground (
        arith,
        opening_bounds ceiling c need w (inr e),
        total_allocated-closed ceiling cs,
        allocate_loop-conserves ceiling cs (need - w),
      )
    ]

-- The shares and the part that is not served add up to the requested power, a negative request
-- counting as 0.
pub allocation-conserves :
    (profiles : Profiles) (cfg : GlobalConfig) (producers : List DeviceControlContext)
    (requested_w : ℤ)
    → let a = allocate_producer_dispatch profiles cfg producers requested_w in
      total_allocated a.shares + a.unserved_w ≡ pos_part requested_w
unfolding allocate_producer_dispatch
allocation-conserves profiles cfg producers requested_w =
    allocate_loop-conserves (producer_effective_hard_ceiling_w profiles cfg) producers
      (pos_part requested_w)

-- What holds of each share: it is within its ceiling, and a skipped producer gets nothing.
pub record IsWithin (s : Share) : Type 0 where
  pub capped : s.allocated_w ≤ s.ceiling_w
  pub skipped_closed : (s.skipped_below_min ≡ false) ⊎ (s.allocated_w ≡ 0)

closed-IsWithin :
    (ceiling : DeviceControlContext → ℕ) (cs : List DeviceControlContext)
    → All IsWithin (map (closed_share ceiling) cs)
closed-IsWithin ceiling [] = tt
closed-IsWithin ceiling (c ∷ cs) = (ground arith, closed-IsWithin ceiling cs)

allocate_loop-IsWithin :
    (ceiling : DeviceControlContext → ℕ) (cs : List DeviceControlContext) (need : ℕ)
    → All IsWithin (allocate_loop ceiling cs need).shares
unfolding allocate_loop
allocate_loop-IsWithin ceiling [] need = tt
allocate_loop-IsWithin ceiling (c ∷ cs) need = elim (Bool-cases (need == 0)) [
  | inl z ↦ rw z (ground arith, closed-IsWithin ceiling cs)
  | inr z ↦ elim (Opening-cases (open_producer ceiling c need)) [
    | inl (inl e) ↦ rw (z, e) (ground arith, allocate_loop-IsWithin ceiling cs need)
    | inl (inr e) ↦ rw (z, e) (ground arith, allocate_loop-IsWithin ceiling cs need)
    | inr (inl (w, e)) ↦
        rw (z, e)
          (ground (arith, opening_bounds ceiling c need w (inl e)), closed-IsWithin ceiling cs)
    | inr (inr (w, e)) ↦
        rw (z, e)
          (
            ground (arith, opening_bounds ceiling c need w (inr e)),
            allocate_loop-IsWithin ceiling cs (need - w),
          )
  ]
]

-- Every share is within its producer's ceiling, and a producer that is skipped below its minimum
-- gets nothing.
pub allocation-IsWithin :
    (profiles : Profiles) (cfg : GlobalConfig) (producers : List DeviceControlContext)
    (requested_w : ℤ)
    → All IsWithin (allocate_producer_dispatch profiles cfg producers requested_w).shares
unfolding allocate_producer_dispatch
allocation-IsWithin profiles cfg producers requested_w =
    allocate_loop-IsWithin (producer_effective_hard_ceiling_w profiles cfg) producers
      (pos_part requested_w)

-- Strict priority: a producer that is opened has, before it, only producers at their ceiling,
-- skipped below their minimum, or with ceiling 0.
abbrev pub IsStrict : List Share → Type 0
IsStrict [] = Unit
IsStrict (s ∷ ss) =
    ((total_allocated ss ≡ 0) ⊎ ((s.allocated_w ≡ s.ceiling_w) ⊎ (s.skipped_below_min ≡ true)))
    × IsStrict ss

closed-IsStrict :
    (ceiling : DeviceControlContext → ℕ) (cs : List DeviceControlContext)
    → IsStrict (map (closed_share ceiling) cs)
closed-IsStrict ceiling [] = tt
closed-IsStrict ceiling (c ∷ cs) =
    (inl (total_allocated-closed ceiling cs), closed-IsStrict ceiling cs)

-- Quantizing a quantized ceiling changes nothing.
pub quantize_idem :
    (r : ℕ) (step : ℤ)
    → quantize_produce_magnitude_toward_zero (quantize_produce_magnitude_toward_zero r step) step
      ≡ quantize_produce_magnitude_toward_zero r step
unfolding quantize_produce_magnitude_toward_zero
quantize_idem r step = ground (arith, floor_to_idem (pos_part step) r)

quantize_zero : (step : ℤ) → quantize_produce_magnitude_toward_zero 0 step ≡ 0
unfolding quantize_produce_magnitude_toward_zero
quantize_zero step = refl

-- A ceiling that is already a multiple of its producer's step.
abbrev pub IsQuantized : (DeviceControlContext → ℕ) → DeviceControlContext → Type 0
IsQuantized ceiling c = quantize_produce_magnitude_toward_zero (ceiling c) c.step_w ≡ ceiling c

served_at_ceiling :
    (ceiling : DeviceControlContext → ℕ) (c : DeviceControlContext) (need w : ℕ)
    → IsQuantized ceiling c
    → open_producer ceiling c need ≡ served w
    → w ≡ ceiling c
unfolding open_producer
served_at_ceiling ceiling c need w q e = ground arith

passed_over_zero :
    (ceiling : DeviceControlContext → ℕ) (c : DeviceControlContext) (need : ℕ)
    → open_producer ceiling c need ≡ passed_over
    → ceiling c ≡ 0
unfolding open_producer
passed_over_zero ceiling c need e = ground arith

allocate_loop-IsStrict :
    (ceiling : DeviceControlContext → ℕ) (cs : List DeviceControlContext) (need : ℕ)
    → ((c : DeviceControlContext) → IsQuantized ceiling c)
    → IsStrict (allocate_loop ceiling cs need).shares
unfolding allocate_loop
allocate_loop-IsStrict ceiling [] need q = tt
allocate_loop-IsStrict ceiling (c ∷ cs) need q = elim (Bool-cases (need == 0)) [
  | inl z ↦ rw z (inl (total_allocated-closed ceiling cs), closed-IsStrict ceiling cs)
  | inr z ↦ elim (Opening-cases (open_producer ceiling c need)) [
    | inl (inl e) ↦
        rw (z, e)
          (
            inr (inl (sym (passed_over_zero ceiling c need e))),
            allocate_loop-IsStrict ceiling cs need q,
          )
    | inl (inr e) ↦ rw (z, e) (inr (inr refl), allocate_loop-IsStrict ceiling cs need q)
    | inr (inl (w, e)) ↦
        rw (z, e) (inl (total_allocated-closed ceiling cs), closed-IsStrict ceiling cs)
    | inr (inr (w, e)) ↦
        rw (z, e)
          (
            inr (inl (served_at_ceiling ceiling c need w (q c) e)),
            allocate_loop-IsStrict ceiling cs (need - w) q,
          )
  ]
]

hard_ceiling-IsQuantized :
    (profiles : Profiles) (cfg : GlobalConfig) (c : DeviceControlContext)
    → IsQuantized (producer_effective_hard_ceiling_w profiles cfg) c
unfolding producer_effective_hard_ceiling_w
hard_ceiling-IsQuantized profiles cfg c = ground (
  arith,
  quantize_zero c.step_w,
  quantize_idem (pos_part cfg.strict_limit_w) c.step_w,
  quantize_idem (pos_part c.max_produce_w) c.step_w,
)

-- Producers behind a producer get power only if that producer is at its ceiling (0 if it is not
-- available) or was skipped because its share would be below its minimum.
pub allocation-IsStrict :
    (profiles : Profiles) (cfg : GlobalConfig) (producers : List DeviceControlContext)
    (requested_w : ℤ)
    → IsStrict (allocate_producer_dispatch profiles cfg producers requested_w).shares
unfolding allocate_producer_dispatch
allocation-IsStrict profiles cfg producers requested_w =
    allocate_loop-IsStrict (producer_effective_hard_ceiling_w profiles cfg) producers
      (pos_part requested_w) (hard_ceiling-IsQuantized profiles cfg)
