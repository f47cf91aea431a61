-- ===== src/Tests/Persistence.antt =====
-- Ticks of the persisted list.
use ha_ems.Prelude.{
  true, false, not, ◌&&◌, ◌||◌, some, List, String, ◌≡◌, refl, ◌⊎◌, same, has_id, append_new_ids,
  remove_id,
}
use ha_ems.Domain.Models.{SurplusDispatchInput}
use ha_ems.Surplus.Order.{
  active_targets_in_activation_order, next_device_target, select_highest,
  is_higher_priority_candidate, select_remaining, select_persisted, active_targets_priority_desc,
  insert_active_targets, insert_by_priority, find_active,
}
use ha_ems.Surplus.Allocator.{
  compute_surplus_device_dispatch, settled_stage, activation_stage, first_ineligible,
}
use ha_ems.Surplus.Allocator.Safety.{IsJustified}
use ha_ems.Dispatch.{
  Command, DispatchAction, dispatch_action_and_device_id, apply_device_dispatch, apply_action,
  canonical_active_device_ids,
}
use ha_ems.Dispatch.Persisted.{IsCanonical, has_id-apply, is_activate, is_release, is_clear_all}
use ha_ems.Dispatch.Ticks.{
  IsReachable, start, tick, next_ids, decision, reachable-IsCanonical, tick_added, tick_removed,
  tick_frozen,
}
use ha_ems.Tests.Data.{idle_input, busy_input}

-- The list that the first tick of `idle_input` persists.
abbrev one_tick : List String
one_tick = next_ids idle_input 1000 60000 false

tick-IsReachable : IsReachable one_tick
tick-IsReachable = tick idle_input 1000 60000 false start

abbrev frozen_input : SurplusDispatchInput
frozen_input = record busy_input { freeze_until_ts = some 61000; active_device_ids = one_tick }

abbrev settled_input : SurplusDispatchInput
settled_input = record busy_input { active_device_ids = one_tick }

abbrev release_ev : Command
release_ev = record { action = DispatchAction.release; device_id = "ev" }

reachable-IsCanonical_example : IsCanonical one_tick
reachable-IsCanonical_example = reachable-IsCanonical tick-IsReachable

tick_added_example : (false ≡ false) × IsJustified idle_input 1000 61000 "ev"
unfolding compute_surplus_device_dispatch settled_stage activation_stage first_ineligible
    active_targets_in_activation_order select_remaining select_persisted
    active_targets_priority_desc insert_active_targets next_device_target select_highest
    is_higher_priority_candidate dispatch_action_and_device_id apply_device_dispatch apply_action
    canonical_active_device_ids append_new_ids has_id
tick_added_example = tick_added idle_input 1000 60000 false "ev" start refl refl

tick_removed_example :
    (false ≡ true)
    ⊎ ((decision settled_input 90000 60000).clear_all ≡ true)
    ⊎ ((decision settled_input 90000 60000).release ≡ some "ev")
unfolding compute_surplus_device_dispatch settled_stage activation_stage first_ineligible
    active_targets_in_activation_order select_remaining select_persisted insert_by_priority
    active_targets_priority_desc insert_active_targets next_device_target select_highest
    is_higher_priority_candidate dispatch_action_and_device_id apply_device_dispatch apply_action
    canonical_active_device_ids append_new_ids has_id find_active remove_id
tick_removed_example = tick_removed settled_input 90000 60000 false "ev" tick-IsReachable refl refl

tick_frozen_example : next_ids frozen_input 2000 60000 false ≡ one_tick
unfolding first_ineligible
tick_frozen_example = tick_frozen frozen_input 2000 60000 tick-IsReachable refl refl refl

has_id-apply_example : has_id "ev" (apply_device_dispatch release_ev one_tick) ≡ (
    not (is_clear_all DispatchAction.release)
    && not (is_release DispatchAction.release && same "ev" "ev")
    && (has_id "ev" one_tick
        || (is_activate DispatchAction.release && same "ev" "ev" && not (same "ev" ""))))
has_id-apply_example =
    has_id-apply release_ev one_tick "ev" (reachable-IsCanonical tick-IsReachable)
