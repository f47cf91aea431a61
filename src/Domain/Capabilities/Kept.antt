-- ===== src/Domain/Capabilities/Kept.antt =====
-- Lemmas on Domain/Capabilities: what the clamp leaves of a target.
use ha_ems.Prelude.{
  true, ℤ, pos, ◌≤ℤ◌, ◌≡◌, min_ℤ, max_ℤ, floor_to, IsWhole, whole-le-round_to, round_to-le-whole,
  neg_parts, arith,
}
use ha_ems.Domain.Models.{Capabilities}
use ha_ems.Domain.Capabilities.{clamp_target_w_for_capabilities, rounded_capabilities, whole_watts}

pub clamp_keeps :
    (c : Capabilities) (t w : ℤ)
    → c.can_absorb_w ≡ true
    → IsWhole w
    → pos 0 ≤ℤ w
    → w ≤ℤ c.max_absorb_w
    → w ≤ℤ t
    → w ≤ℤ clamp_target_w_for_capabilities (rounded_capabilities c) t
unfolding clamp_target_w_for_capabilities rounded_capabilities min_ℤ floor_to
clamp_keeps c t w can whole h m le =
    ground (arith, whole-le-round_to t w whole le, whole-le-round_to c.max_absorb_w w whole m)

pub clamp_within :
    (c : Capabilities) (t low high : ℤ)
    → IsWhole low
    → IsWhole high
    → low ≤ℤ pos 0
    → pos 0 ≤ℤ high
    → low ≤ℤ t
    → t ≤ℤ high
    → (low ≤ℤ clamp_target_w_for_capabilities c t) × (clamp_target_w_for_capabilities c t ≤ℤ high)
unfolding clamp_target_w_for_capabilities min_ℤ max_ℤ
clamp_within c t low high wl wh l h lower upper = ground (
  arith,
  whole-le-round_to t low wl lower,
  round_to-le-whole t high wh upper,
  neg_parts (pos (whole_watts c.max_produce_w)),
)
