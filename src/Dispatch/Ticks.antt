-- ===== src/Dispatch/Ticks.antt =====
-- The closed loop of surplus dispatch: the allocator decides on the persisted list
-- (modules/ems_core/net_zero/surplus_allocator.py), the engine turns the decision into a command
-- (modules/ems_core/net_zero/engine.py) and the applier writes the next list
-- (ems_dispatch_state_applier.py).
use ha_ems.Prelude.{
  ℕ, ◌+◌, Bool, true, false, ◌&&◌, ◌||◌, none, some, List, [], String, same, same_iff, has_id, ◌≡◌,
  refl, arith, ◌⊎◌, inl, inr, Option-cases,
}
use ha_ems.Domain.Models.{SurplusDispatchInput, SurplusDispatchDecision}
use ha_ems.Surplus.Allocator.{
  compute_surplus_device_dispatch, no_change, first_ineligible, is_frozen,
}
use ha_ems.Surplus.Allocator.Safety.{IsJustified, dispatch-activate, dispatch_frozen}
use ha_ems.Dispatch.{
  dispatch_action_and_device_id, apply_device_dispatch, apply_action, noop_command,
}
use ha_ems.Dispatch.Persisted.{
  IsCanonical, apply-IsCanonical, apply_canonical, has_id-apply, is_activate, is_release,
  is_clear_all,
}

-- One tick: what the engine decides, with `combo_change` for a changed combination of limits, and
-- what the applier then persists.
abbrev pub decision : SurplusDispatchInput → ℕ → ℕ → SurplusDispatchDecision
decision inp now_ts freeze_s = compute_surplus_device_dispatch inp now_ts freeze_s

abbrev pub next_ids : SurplusDispatchInput → ℕ → ℕ → Bool → List String
next_ids inp now_ts freeze_s combo_change =
    apply_device_dispatch
      (dispatch_action_and_device_id (compute_surplus_device_dispatch inp now_ts freeze_s)
        combo_change)
      inp.active_device_ids

-- The lists that a run of ticks can persist, from an empty one.
pub data IsReachable : List String → Type 0 where
  start : IsReachable []
  tick :
      (inp : SurplusDispatchInput) (now_ts freeze_s : ℕ) (combo_change : Bool)
      → IsReachable inp.active_device_ids
      → IsReachable (next_ids inp now_ts freeze_s combo_change)

empty-IsCanonical : IsCanonical []
unfolding has_id
empty-IsCanonical = record { distinct = tt; all_named = refl }

-- Every list that a run of ticks persists holds no identifier twice and no empty one.
pub reachable-IsCanonical : {ids : List String} → IsReachable ids → IsCanonical ids
reachable-IsCanonical start = empty-IsCanonical
reachable-IsCanonical (tick inp now_ts freeze_s combo_change r) =
    apply-IsCanonical
      (dispatch_action_and_device_id (compute_surplus_device_dispatch inp now_ts freeze_s)
        combo_change)
      inp.active_device_ids

command_activates :
    (d : SurplusDispatchDecision) (combo_change : Bool) (y : String)
    → let c = dispatch_action_and_device_id d combo_change in
      (is_activate c.action && same y c.device_id) ≡ true → d.activate ≡ some y
unfolding dispatch_action_and_device_id
command_activates d combo_change y e = elim (Option-cases d.activate) [
  | inl nothing ↦ absurd (ground arith)
  | inr (x, found) ↦ ground (arith, same_iff y x)
]

combo_clears :
    (d : SurplusDispatchDecision) (combo_change : Bool)
    → is_clear_all (dispatch_action_and_device_id d combo_change).action ≡ false
    → combo_change ≡ false
unfolding dispatch_action_and_device_id
combo_clears d combo_change e = ground arith

-- If a tick adds a device to a reachable list, the combination of limits did not change and the
-- device fulfils every condition for its activation: the policy is active, the freeze is over, no
-- active target is ineligible, it is an eligible target that none beats in priority and rank, and
-- the required power is positive and covers its threshold.
pub tick_added :
    (inp : SurplusDispatchInput) (now_ts freeze_s : ℕ) (combo_change : Bool) (y : String)
    → IsReachable inp.active_device_ids
    → has_id y inp.active_device_ids ≡ false
    → has_id y (next_ids inp now_ts freeze_s combo_change) ≡ true
    → (combo_change ≡ false) × IsJustified inp now_ts (now_ts + freeze_s) y
tick_added inp now_ts freeze_s combo_change y r absent present =
    let d = compute_surplus_device_dispatch inp now_ts freeze_s in
    let effect =
      has_id-apply (dispatch_action_and_device_id d combo_change) inp.active_device_ids y
        (reachable-IsCanonical r) in
    (
      combo_clears d combo_change (ground (arith, effect)),
      (dispatch-activate inp now_ts freeze_s
          (command_activates d combo_change y (ground (arith, effect)))).0,
    )

command_removes :
    (d : SurplusDispatchDecision) (combo_change : Bool) (y : String)
    → let c = dispatch_action_and_device_id d combo_change in
      (is_clear_all c.action || (is_release c.action && same y c.device_id)) ≡ true
      → (combo_change ≡ true) ⊎ (d.clear_all ≡ true) ⊎ (d.release ≡ some y)
unfolding dispatch_action_and_device_id
command_removes d combo_change y e = elim (Option-cases d.release) [
  | inl nothing ↦ ground arith
  | inr (x, found) ↦ ground (arith, same_iff y x)
]

-- A device leaves a reachable list only where the combination of limits changed or the allocator
-- cleared all or released this device.
pub tick_removed :
    (inp : SurplusDispatchInput) (now_ts freeze_s : ℕ) (combo_change : Bool) (y : String)
    → IsReachable inp.active_device_ids
    → has_id y inp.active_device_ids ≡ true
    → has_id y (next_ids inp now_ts freeze_s combo_change) ≡ false
    → (combo_change ≡ true)
      ⊎ ((decision inp now_ts freeze_s).clear_all ≡ true)
      ⊎ ((decision inp now_ts freeze_s).release ≡ some y)
tick_removed inp now_ts freeze_s combo_change y r present absent =
    let d = compute_surplus_device_dispatch inp now_ts freeze_s in
    let effect =
      has_id-apply (dispatch_action_and_device_id d combo_change) inp.active_device_ids y
        (reachable-IsCanonical r) in
    command_removes d combo_change y (ground (arith, effect))

no_change_keeps :
    (ids : List String)
    → IsCanonical ids
    → apply_device_dispatch (dispatch_action_and_device_id no_change false) ids ≡ ids
unfolding dispatch_action_and_device_id apply_action
no_change_keeps ids h = apply_canonical noop_command ids h

-- For a reachable list, while the freeze lasts, with an active policy, no active target that is ineligible and no change
-- of the limits, a tick persists the list it read.
pub tick_frozen :
    (inp : SurplusDispatchInput) (now_ts freeze_s : ℕ)
    → IsReachable inp.active_device_ids
    → inp.policy_active ≡ true
    → first_ineligible inp.targets ≡ none
    → is_frozen inp.freeze_until_ts now_ts ≡ true
    → next_ids inp now_ts freeze_s false ≡ inp.active_device_ids
tick_frozen inp now_ts freeze_s r p n f =
    rw (dispatch_frozen inp now_ts freeze_s p n f)
      (no_change_keeps inp.active_device_ids (reachable-IsCanonical r))
