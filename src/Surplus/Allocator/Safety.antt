-- ===== src/Surplus/Allocator/Safety.antt =====
-- Theorems on Surplus/Allocator: the decision of compute_surplus_device_dispatch.
use ha_ems.Prelude.{
  ℕ, ◌+◌, ◌≤ℤ◌, ◌<ℤ◌, ◌≡◌, refl, sym, subst, true, false, List, [], ◌∷◌, none, some, String,
  Option-cases, ◌⊎◌, inl, inr, arith, pos,
}
use ha_ems.Domain.Models.{SurplusDeviceTarget, SurplusDispatchInput, SurplusDispatchDecision}
use ha_ems.Surplus.Order.{active_targets_in_activation_order, next_device_target}
use ha_ems.Surplus.Order.Candidates.{IsBest, next_device_target-IsBest}
use ha_ems.Surplus.Order.Prioritized.{IsActiveOf}
use ha_ems.Surplus.Order.Active.{
  active_targets_in_activation_order-IsActiveSequence, last_target-All,
}
use ha_ems.Surplus.Allocator.{
  no_change, first_ineligible, is_frozen, activation_stage, n_minus_one_stage, settled_stage,
  compute_surplus_device_dispatch,
}
use ha_ems.Surplus.Allocator.Released.{
  has_on, IsReleasedIneligible, IsReleasedNewest, has_on_of_active, first_ineligible-has_on,
  first_ineligible-member, first_ineligible-All, settled_stage-release,
}

-- At most one of the three commands.
pub record IsExclusive (d : SurplusDispatchDecision) : Type 0 where
  pub clear_alone : (d.clear_all ≡ false) ⊎ ((d.activate ≡ none) × (d.release ≡ none))
  pub one_device : (d.activate ≡ none) ⊎ (d.release ≡ none)

activation_stage-IsExclusive :
    (inp : SurplusDispatchInput) (now_ts freeze_s : ℕ)
    → IsExclusive (activation_stage inp now_ts freeze_s)
unfolding activation_stage
activation_stage-IsExclusive inp now_ts freeze_s = ground arith

settled_stage-IsExclusive :
    (inp : SurplusDispatchInput) (now_ts freeze_s : ℕ) (active : List SurplusDeviceTarget)
    → IsExclusive (settled_stage inp now_ts freeze_s active)
unfolding settled_stage n_minus_one_stage
settled_stage-IsExclusive inp now_ts freeze_s [] = activation_stage-IsExclusive inp now_ts freeze_s
settled_stage-IsExclusive inp now_ts freeze_s (t ∷ []) =
    ground (arith, activation_stage-IsExclusive inp now_ts freeze_s)
settled_stage-IsExclusive inp now_ts freeze_s (t ∷ u ∷ rest) =
    ground (arith, activation_stage-IsExclusive inp now_ts freeze_s)

-- One decision activates a device, releases a device, clears all, or does none of these.
pub dispatch-IsExclusive :
    (inp : SurplusDispatchInput) (now_ts freeze_s : ℕ)
    → IsExclusive (compute_surplus_device_dispatch inp now_ts freeze_s)
unfolding compute_surplus_device_dispatch
dispatch-IsExclusive inp now_ts freeze_s = ground (
  arith,
  settled_stage-IsExclusive inp now_ts freeze_s
      (active_targets_in_activation_order inp.targets inp.active_device_ids),
)

-- What justifies the activation of a device in its last stage.
abbrev Covers : SurplusDispatchInput → ℕ → String → SurplusDispatchDecision → Type 0
Covers inp refreeze x d =
    (t : SurplusDeviceTarget) × (next_device_target inp.targets ≡ some t)
    × (t.device_id ≡ x)
    × (t.threshold_w ≤ℤ inp.rpc_kw)
    × (d.freeze_until_ts ≡ some refreeze)

activation_stage-Covers :
    (inp : SurplusDispatchInput) (now_ts freeze_s : ℕ) {x : String}
    → (activation_stage inp now_ts freeze_s).activate ≡ some x
    → Covers inp (now_ts + freeze_s) x (activation_stage inp now_ts freeze_s)
unfolding activation_stage
activation_stage-Covers inp now_ts freeze_s e =
    elim (Option-cases (next_device_target inp.targets)) [
      | inl nothing ↦ absurd (ground arith)
      | inr (t, chosen) ↦ (t, chosen, ground arith, ground arith, ground arith)
    ]

settled_stage-cases :
    (inp : SurplusDispatchInput) (now_ts freeze_s : ℕ) (active : List SurplusDeviceTarget)
    → ((settled_stage inp now_ts freeze_s active).activate ≡ none)
      ⊎ (settled_stage inp now_ts freeze_s active ≡ activation_stage inp now_ts freeze_s)
unfolding settled_stage n_minus_one_stage
settled_stage-cases inp now_ts freeze_s [] = inr refl
settled_stage-cases inp now_ts freeze_s (t ∷ []) = ground arith
settled_stage-cases inp now_ts freeze_s (t ∷ u ∷ rest) = ground arith

settled_stage-Covers :
    (inp : SurplusDispatchInput) (now_ts freeze_s : ℕ) (active : List SurplusDeviceTarget)
    {x : String}
    → (settled_stage inp now_ts freeze_s active).activate ≡ some x
    → Covers inp (now_ts + freeze_s) x (settled_stage inp now_ts freeze_s active)
settled_stage-Covers inp now_ts freeze_s active {x} e =
    elim (settled_stage-cases inp now_ts freeze_s active) [
      | inl quiet ↦ absurd (cc)
      | inr same_stage ↦
          subst (Covers inp (now_ts + freeze_s) x) (sym same_stage)
            (activation_stage-Covers inp now_ts freeze_s (rw (← same_stage) e))
    ]

-- Every condition under which a device is activated.
pub record IsJustified (inp : SurplusDispatchInput) (now_ts refreeze : ℕ) (x : String)
    : Type 0 where
  pub active_policy : inp.policy_active ≡ true
  pub settled : is_frozen inp.freeze_until_ts now_ts ≡ false
  pub none_ineligible : first_ineligible inp.targets ≡ none
  pub chosen : SurplusDeviceTarget
  pub chosen_id : chosen.device_id ≡ x
  pub best : IsBest inp.targets chosen
  pub covered : chosen.threshold_w ≤ℤ inp.rpc_kw
  pub power_needed : pos 0 <ℤ inp.rpc_kw

next-IsBest :
    (targets : List SurplusDeviceTarget) {t : SurplusDeviceTarget}
    → next_device_target targets ≡ some t
    → IsBest targets t
next-IsBest targets e = elim (next_device_target-IsBest targets) [
  | inl (u, chosen, best) ↦ subst (IsBest targets) (cc) best
  | inr (nothing, _) ↦ absurd (cc)
]

-- A device is activated only if the policy is active, no active target is ineligible, the freeze
-- is over, the device is the eligible target of highest priority, and the required power is
-- positive and covers its threshold. The activation starts a new freeze.
pub dispatch-activate :
    (inp : SurplusDispatchInput) (now_ts freeze_s : ℕ) {x : String}
    → (compute_surplus_device_dispatch inp now_ts freeze_s).activate ≡ some x
    → IsJustified inp now_ts (now_ts + freeze_s) x
      × ((compute_surplus_device_dispatch inp now_ts freeze_s).freeze_until_ts
          ≡ some (now_ts + freeze_s))
unfolding compute_surplus_device_dispatch
dispatch-activate inp now_ts freeze_s {x} e =
    let order = active_targets_in_activation_order inp.targets inp.active_device_ids in
    let stage : (settled_stage inp now_ts freeze_s order).activate ≡ some x = ground arith in
    let (t, next, id, covers, refrozen) = settled_stage-Covers inp now_ts freeze_s order stage in
    (
      record {
        active_policy = ground arith;
        settled = ground arith;
        none_ineligible = ground arith;
        chosen = t;
        chosen_id = id;
        best = next-IsBest inp.targets next;
        covered = covers;
        power_needed = ground (arith, (next-IsBest inp.targets next).eligible);
      },
      ground arith,
    )

-- A device is released only under an active policy, and its dispatch state is on. Either it is an
-- active target that is not enabled, not allowed, forced on or without priority any more; or the
-- freeze is over, no active target is of that kind, the device is the newest of the active targets,
-- and either it is the only one and the energy balance is at most the release deadband, or it is one
-- of several and the excess consumption reaches its release threshold.
pub dispatch-release :
    (inp : SurplusDispatchInput) (now_ts freeze_s : ℕ) {x : String}
    → (compute_surplus_device_dispatch inp now_ts freeze_s).release ≡ some x
    → (inp.policy_active ≡ true)
      × (has_on x inp.targets ≡ true)
      × (IsReleasedIneligible inp.targets x ⊎ IsReleasedNewest inp now_ts x)
unfolding compute_surplus_device_dispatch
dispatch-release inp now_ts freeze_s {x} e = elim (Option-cases (first_ineligible inp.targets)) [
  | inr (t, found) ↦
      let (listed, bad) = first_ineligible-member inp.targets {t = t} found in
      (
        ground arith,
        ground (arith, first_ineligible-has_on inp.targets {t = t} found),
        inl (record {
          target = t;
          listed = listed;
          target_id = ground arith;
          on = ground arith;
          lost = ground arith;
        }),
      )
  | inl nothing ↦
      let order = active_targets_in_activation_order inp.targets inp.active_device_ids in
      let stage : (settled_stage inp now_ts freeze_s order).release ≡ some x = ground arith in
      let (t, last, id, power) = settled_stage-release inp now_ts freeze_s order stage in
      let active =
        last_target-All (IsActiveOf inp.targets) order
          (active_targets_in_activation_order-IsActiveSequence inp.targets
            inp.active_device_ids).active
          last in
      (
        ground arith,
        rw (← id) (has_on_of_active t.device_id inp.targets active.1),
        inr (record {
          settled = ground arith;
          none_ineligible = first_ineligible-All inp.targets nothing;
          newest = t;
          last = last;
          newest_id = id;
          power = power;
        }),
      )
]

-- During the freeze, with an active policy and no ineligible target, nothing changes.
pub dispatch_frozen :
    (inp : SurplusDispatchInput) (now_ts freeze_s : ℕ)
    → inp.policy_active ≡ true
    → first_ineligible inp.targets ≡ none
    → is_frozen inp.freeze_until_ts now_ts ≡ true
    → compute_surplus_device_dispatch inp now_ts freeze_s ≡ no_change
unfolding compute_surplus_device_dispatch
dispatch_frozen inp now_ts freeze_s p n f = ground arith
