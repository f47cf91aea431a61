-- ===== src/Domain/Capabilities/Bounds.antt =====
-- Theorems on Domain/Capabilities: clamp_target_w_for_capabilities.
use ha_ems.Prelude.{
  ◌≡◌, true, ℤ, pos, neg, ◌≤ℤ◌, pos_part, min_ℤ, max_ℤ, round_to-IsWhole, round_to_whole, IsWhole,
  floor_to-mod, floor_to, floor_to_bounds, none, ◌≢◌, arith, neg_parts, eq_of_parts, ◌<ℤ◌, ◌⊎◌,
}
use ha_ems.Domain.Models.{Capabilities}
use ha_ems.Domain.Capabilities.{
  clamp_target_w_for_capabilities, capability_block_reason, whole_watts,
}

-- The clamped target lies between minus the producing limit and the absorbing limit, a negative
-- limit counting as 0. It is at most 0 for a device that cannot absorb and at least 0 for a device
-- that cannot produce.
pub clamp_bounds :
    (c : Capabilities) (t : ℤ)
    → (clamp_target_w_for_capabilities c t ≤ℤ pos (pos_part c.max_absorb_w))
      × (neg (pos (pos_part c.max_produce_w)) ≤ℤ clamp_target_w_for_capabilities c t)
      × ((c.can_absorb_w ≡ true) ⊎ (clamp_target_w_for_capabilities c t ≤ℤ pos 0))
      × ((c.can_produce_w ≡ true) ⊎ (pos 0 ≤ℤ clamp_target_w_for_capabilities c t))
unfolding clamp_target_w_for_capabilities min_ℤ max_ℤ
clamp_bounds c t = ground (
  arith,
  floor_to_bounds 1000 (pos_part c.max_absorb_w),
  floor_to_bounds 1000 (pos_part c.max_produce_w),
  neg_parts (pos (pos_part c.max_produce_w)),
  neg_parts (pos (floor_to 1000 (pos_part c.max_produce_w))),
)

-- Where a blocked direction is reported, the clamped target is 0.
pub block_reason-clamp :
    (c : Capabilities) (t : ℤ)
    → capability_block_reason c t ≢ none
    → clamp_target_w_for_capabilities c t ≡ pos 0
unfolding clamp_target_w_for_capabilities capability_block_reason
block_reason-clamp c t h = ground arith

clamp-IsWhole : (c : Capabilities) (t : ℤ) → IsWhole (clamp_target_w_for_capabilities c t)
unfolding clamp_target_w_for_capabilities min_ℤ max_ℤ neg
clamp-IsWhole c t = ground (
  arith,
  round_to-IsWhole t,
  floor_to-mod (pos_part c.max_absorb_w),
  floor_to-mod (pos_part c.max_produce_w),
)

-- A target that the device can follow, in whole watts.
record IsReachable (c : Capabilities) (u : ℤ) : Type 0 where
  whole : IsWhole u
  absorbs : pos 0 <ℤ u → (c.can_absorb_w ≡ true) × (u ≤ℤ pos (whole_watts c.max_absorb_w))
  produces : u <ℤ pos 0 → (c.can_produce_w ≡ true) × (neg (pos (whole_watts c.max_produce_w)) ≤ℤ u)

clamp_reachable :
    (c : Capabilities) (u : ℤ) → IsReachable c u → clamp_target_w_for_capabilities c u ≡ u
unfolding clamp_target_w_for_capabilities min_ℤ max_ℤ
clamp_reachable c u r = rw (round_to_whole u r.whole) (
    ground (
      arith,
      eq_of_parts u (pos (whole_watts c.max_absorb_w)),
      eq_of_parts u (neg (pos (whole_watts c.max_produce_w))),
      eq_of_parts u (pos 0),
    ))

clamp-IsReachable : (c : Capabilities) (t : ℤ) → IsReachable c (clamp_target_w_for_capabilities c t)
unfolding clamp_target_w_for_capabilities min_ℤ max_ℤ
clamp-IsReachable c t = record {
  whole = unfold clamp_target_w_for_capabilities in clamp-IsWhole c t;
  absorbs = ground (arith, neg_parts (pos (whole_watts c.max_produce_w)));
  produces = ground (arith, neg_parts (pos (whole_watts c.max_produce_w)));
}

-- Clamping a clamped target changes nothing.
pub clamp_idem :
    (c : Capabilities) (t : ℤ)
    → clamp_target_w_for_capabilities c (clamp_target_w_for_capabilities c t)
      ≡ clamp_target_w_for_capabilities c t
clamp_idem c t = clamp_reachable c _ (clamp-IsReachable c t)
