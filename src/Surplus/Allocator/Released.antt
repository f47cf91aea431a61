-- ===== src/Surplus/Allocator/Released.antt =====
-- Lemmas on Surplus/Allocator: what a device is released for.
use ha_ems.Prelude.{
  ℕ, ◌≤ℤ◌, ◌≡◌, refl, Bool, true, false, ◌&&◌, ◌||◌, List, [], ◌∷◌, none, some, String, same,
  same_iff, Option-cases, ◌⊎◌, inl, inr, arith, pos, All, Memᴰ, Bool-cases, length, ◌≤◌,
}
use ha_ems.Domain.Models.{SurplusDeviceTarget, SurplusDispatchInput}
use ha_ems.Surplus.Order.{
  active_targets_in_activation_order, last_target, surplus_release_deadband_w,
}
use ha_ems.Surplus.Order.Prioritized.{has_active}
use ha_ems.Surplus.Allocator.{
  is_ineligible, release_threshold_w, excess_consumption_w, first_ineligible, is_frozen,
  activation_stage, n_minus_one_stage, settled_stage,
}

-- Some target with this identifier has its dispatch state on.
pub has_on : String → List SurplusDeviceTarget → Bool
has_on x [] = false
has_on x (t ∷ ts) = (t.active && same x t.device_id) || has_on x ts

pub has_on_of_active :
    (x : String) (ts : List SurplusDeviceTarget) → has_active x ts ≡ true → has_on x ts ≡ true
unfolding has_on has_active
has_on_of_active x [] h = h
has_on_of_active x (t ∷ ts) h = ground (arith, has_on_of_active x ts)

pub first_ineligible-has_on :
    (ts : List SurplusDeviceTarget) {t : SurplusDeviceTarget}
    → first_ineligible ts ≡ some t
    → has_on t.device_id ts ≡ true
unfolding has_on first_ineligible
first_ineligible-has_on [] e = absurd (cc)
first_ineligible-has_on (u ∷ ts) {t} e =
    ground (arith, first_ineligible-has_on ts {t = t}, same_iff t.device_id u.device_id)

pub first_ineligible-member :
    (ts : List SurplusDeviceTarget) {t : SurplusDeviceTarget}
    → first_ineligible ts ≡ some t
    → Memᴰ t ts × (is_ineligible t ≡ true)
unfolding first_ineligible
first_ineligible-member [] e = absurd (cc)
first_ineligible-member (u ∷ ts) {t} e = elim (Bool-cases (is_ineligible u)) [
  | inl bad ↦ let here : some u ≡ some t = rw bad at e in (Memᴰ.head (cc), ground arith)
  | inr good ↦
      let (m, bad) = first_ineligible-member ts {t = t} (rw good at e) in (Memᴰ.tail m, bad)
]

pub first_ineligible-All :
    (ts : List SurplusDeviceTarget)
    → first_ineligible ts ≡ none
    → All (λ t. is_ineligible t ≡ false) ts
unfolding first_ineligible
first_ineligible-All [] e = tt
first_ineligible-All (u ∷ ts) e = (ground arith, first_ineligible-All ts (ground arith))

-- An active target that has lost a condition of its activation is the one that is released.
pub record IsReleasedIneligible (targets : List SurplusDeviceTarget) (x : String) : Type 0 where
  pub target : SurplusDeviceTarget
  pub listed : Memᴰ target targets
  pub target_id : target.device_id ≡ x
  pub on : target.active ≡ true
  pub lost :
      (target.enabled ≡ false)
      ⊎ (target.activation_allowed ≡ false)
      ⊎ (target.force_on ≡ true)
      ⊎ (target.priority ≤ℤ pos 0)

-- What the newest of the active targets is released for: the energy balance of the last one, the
-- excess consumption of one of several.
abbrev pub ReleasePower :
    SurplusDispatchInput → List SurplusDeviceTarget → SurplusDeviceTarget → Type 0
ReleasePower inp active t =
    ((active ≡ t ∷ []) × (inp.rpnz_w ≤ℤ surplus_release_deadband_w))
    ⊎ ((2 ≤ length active) × (release_threshold_w t ≤ excess_consumption_w inp))

-- The newest of the active targets is the one that is released, after the freeze and while every
-- target keeps its conditions.
pub record IsReleasedNewest (inp : SurplusDispatchInput) (now_ts : ℕ) (x : String) : Type 0 where
  pub settled : is_frozen inp.freeze_until_ts now_ts ≡ false
  pub none_ineligible : All (λ t. is_ineligible t ≡ false) inp.targets
  pub newest : SurplusDeviceTarget
  pub last :
      last_target (active_targets_in_activation_order inp.targets inp.active_device_ids)
      ≡ some newest
  pub newest_id : newest.device_id ≡ x
  pub power :
      ReleasePower inp (active_targets_in_activation_order inp.targets inp.active_device_ids) newest

pub settled_stage-release :
    (inp : SurplusDispatchInput) (now_ts freeze_s : ℕ) (active : List SurplusDeviceTarget)
    {x : String}
    → (settled_stage inp now_ts freeze_s active).release ≡ some x
    → (t : SurplusDeviceTarget) × (last_target active ≡ some t)
      × (t.device_id ≡ x)
      × ReleasePower inp active t
unfolding settled_stage n_minus_one_stage last_target activation_stage
settled_stage-release inp now_ts freeze_s [] e = absurd (ground arith)
settled_stage-release inp now_ts freeze_s (t ∷ []) e =
    (t, refl, ground arith, inl (refl, ground arith))
settled_stage-release inp now_ts freeze_s (t ∷ u ∷ rest) e =
    elim (Option-cases (last_target (u ∷ rest))) [
      | inl nothing ↦ absurd (ground arith)
      | inr (newest, found) ↦ (newest, found, ground arith, inr (omega arith, ground arith))
    ]
