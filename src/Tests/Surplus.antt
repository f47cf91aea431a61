-- ===== src/Tests/Surplus.antt =====
-- The allocator on a relay and an EV.
use ha_ems.Prelude.{
  true, false, none, some, [], ◌∷◌, pos, ◌≡◌, refl, ◌⊎◌, has_id, All, arith, round_to, round_div,
}
use ha_ems.Domain.Models.{SurplusDeviceTarget}
use ha_ems.Surplus.Order.{
  active_targets_in_activation_order, next_device_target, select_highest,
  is_higher_priority_candidate, select_remaining, select_persisted, active_targets_priority_desc,
  is_eligible, insert_active_targets, insert_by_priority, find_active, release_power_w,
}
use ha_ems.Surplus.Order.Candidates.{IsBest, next_device_target-IsBest}
use ha_ems.Surplus.Order.Active.{
  IsActiveSequence, active_targets_in_activation_order-IsActiveSequence,
}
use ha_ems.Surplus.Allocator.{
  compute_surplus_device_dispatch, settled_stage, activation_stage, n_minus_one_stage,
  first_ineligible,
}
use ha_ems.Surplus.Allocator.Safety.{IsJustified, dispatch-activate, dispatch-release}
use ha_ems.Surplus.Allocator.Released.{IsReleasedIneligible, IsReleasedNewest, has_on}
use ha_ems.Surplus.Allocator.Thresholds.{n_minus_one_small_device}
use ha_ems.Tests.Data.{relay_target, idle_input, busy_input}

dispatch-activate_example :
    IsJustified idle_input 1000 61000 "ev"
    × ((compute_surplus_device_dispatch idle_input 1000 60000).freeze_until_ts ≡ some 61000)
unfolding compute_surplus_device_dispatch settled_stage activation_stage first_ineligible
    active_targets_in_activation_order select_remaining select_persisted
    active_targets_priority_desc insert_active_targets next_device_target select_highest
    is_higher_priority_candidate
dispatch-activate_example = dispatch-activate idle_input 1000 60000 {x = "ev"} refl

dispatch-release_example :
    (busy_input.policy_active ≡ true)
    × (has_on "ev" busy_input.targets ≡ true)
    × (IsReleasedIneligible busy_input.targets "ev" ⊎ IsReleasedNewest busy_input 1000 "ev")
unfolding compute_surplus_device_dispatch settled_stage first_ineligible
    active_targets_in_activation_order select_remaining select_persisted find_active has_id
    active_targets_priority_desc insert_active_targets insert_by_priority
dispatch-release_example = dispatch-release busy_input 1000 60000 {x = "ev"} refl

next_device_target-IsBest_example :
    ((t : SurplusDeviceTarget) × (next_device_target idle_input.targets ≡ some t)
      × IsBest idle_input.targets t)
    ⊎ ((next_device_target idle_input.targets ≡ none)
        × All (λ u. is_eligible u ≡ false) idle_input.targets)
next_device_target-IsBest_example = next_device_target-IsBest idle_input.targets

active_targets_in_activation_order-IsActiveSequence_example :
    IsActiveSequence busy_input.targets
      (active_targets_in_activation_order busy_input.targets ("gone" ∷ "ev" ∷ []))
active_targets_in_activation_order-IsActiveSequence_example =
    active_targets_in_activation_order-IsActiveSequence busy_input.targets ("gone" ∷ "ev" ∷ [])

abbrev small_target : SurplusDeviceTarget
small_target = record relay_target { active = true; releasable_power_w = some (pos 80000) }

n_minus_one_small_device_example :
    (n_minus_one_stage idle_input 1000 60000 small_target).release ≡ some "relay"
unfolding release_power_w round_to round_div
n_minus_one_small_device_example =
    n_minus_one_small_device idle_input 1000 60000 small_target (ground arith) (ground arith)
