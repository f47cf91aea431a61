-- ===== src/Domain/Capabilities.antt =====
-- modules/ems_core/domain/capabilities.py: the last clamp of a target to what the device can do.
pub mod Bounds
pub mod Kept
use ha_ems.Prelude.{
  ℕ, Bool, true, false, ℤ, pos, neg, pos_part, ltb_ℤ, min_ℤ, max_ℤ, round_to, floor_to,
  if◌then◌else◌, Option, none, some,
}
use ha_ems.Domain.Models.{Capabilities, PolicyReason}

-- `max(int(x), 0)` of a power in watts: `int` drops the fraction.
abbrev pub whole_watts : ℤ → ℕ
whole_watts x = floor_to 1000 (pos_part x)

unfoldable pub clamp_target_w_for_capabilities : Capabilities → ℤ → ℤ
clamp_target_w_for_capabilities c target_w =
    let target = round_to 1000 target_w in
    if ltb_ℤ (pos 0) target
    then (if c.can_absorb_w then min_ℤ target (pos (whole_watts c.max_absorb_w)) else pos 0)
    else if ltb_ℤ target (pos 0)
    then (if c.can_produce_w then max_ℤ target (neg (pos (whole_watts c.max_produce_w))) else pos 0)
    else pos 0

unfoldable pub capability_block_reason : Capabilities → ℤ → Option PolicyReason
capability_block_reason c target_w =
    let target = round_to 1000 target_w in
    if (if ltb_ℤ (pos 0) target then (if c.can_absorb_w then false else true) else false)
    then some PolicyReason.capability_blocked_absorb
    else if (if ltb_ℤ target (pos 0) then (if c.can_produce_w then false else true) else false)
    then some PolicyReason.capability_blocked_produce
    else none

abbrev pub one_watt : ℤ
one_watt = pos 1000

-- The rounding of _capability_device_config_for_id, in engine.py and in the writers.
unfoldable pub rounded_capabilities : Capabilities → Capabilities
rounded_capabilities c = record c {
  min_absorb_w = round_to 1000 c.min_absorb_w;
  max_absorb_w = round_to 1000 c.max_absorb_w;
  step_w = max_ℤ one_watt (round_to 1000 c.step_w);
  min_produce_w = round_to 1000 c.min_produce_w;
  max_produce_w = round_to 1000 c.max_produce_w;
}
