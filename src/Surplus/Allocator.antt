-- ===== src/Surplus/Allocator.antt =====
-- surplus_allocator.py: compute_surplus_device_dispatch, stage by stage.
pub mod Released
pub mod Safety
pub mod Thresholds
use ha_ems.Prelude.{
  ℕ, ◌+◌, ◌-◌, ◌*◌, Bool, true, false, ◌&&◌, ◌||◌, not, List, [], ◌∷◌, Option, none, some, String,
  ltb, leb, ℤ, pos, neg, pos_part, ltb_ℤ, leb_ℤ, round_to, if◌then◌else◌,
}
use ha_ems.Domain.Models.{
  SurplusDeviceTarget, SurplusDispatchInput, SurplusDispatchDecision, ReleaseMode,
}
use ha_ems.Surplus.Order.{
  active_targets_in_activation_order, next_device_target, last_target, release_power_w,
  release_margin_w, surplus_release_deadband_w,
}

-- SurplusDispatchDecision() with its defaults: nothing changes.
abbrev pub no_change : SurplusDispatchDecision
no_change = record {
  activate = none;
  release = none;
  clear_all = false;
  freeze_until_ts = none;
  release_mode = ReleaseMode.no_release;
  release_power_w = 0;
  release_margin_w = 0;
  release_threshold_w = 0;
  excess_consumption_w = 0;
}

-- An active target that may not stay active.
abbrev pub is_ineligible : SurplusDeviceTarget → Bool
is_ineligible t =
    t.active
    && (not t.enabled || not t.activation_allowed || t.force_on || leb_ℤ t.priority (pos 0))

unfoldable pub first_ineligible : List SurplusDeviceTarget → Option SurplusDeviceTarget
first_ineligible [] = none
first_ineligible (t ∷ targets) = if is_ineligible t then some t else first_ineligible targets

abbrev pub is_frozen : Option ℕ → ℕ → Bool
is_frozen none now_ts = false
is_frozen (some ts) now_ts = ltb now_ts ts

-- The last stage: activate the next target if the required power covers its threshold.
unfoldable pub activation_stage : SurplusDispatchInput → ℕ → ℕ → SurplusDispatchDecision
activation_stage inp now_ts freeze_s = elim (next_device_target inp.targets) [
  | none ↦ no_change
  | some nxt ↦
      if leb_ℤ nxt.threshold_w inp.rpc_kw
      then record no_change {
        activate = some nxt.device_id;
        freeze_until_ts = some (now_ts + freeze_s);
      }
      else no_change
]

unfoldable pub excess_consumption_w : SurplusDispatchInput → ℕ
excess_consumption_w inp = pos_part (round_to 1000 (neg inp.rpc_kw))

unfoldable pub release_threshold_w : SurplusDeviceTarget → ℕ
release_threshold_w t = release_power_w t - release_margin_w (release_power_w t)

-- More than one target is active: only the newest is judged.
unfoldable pub n_minus_one_stage :
    SurplusDispatchInput → ℕ → ℕ → SurplusDeviceTarget → SurplusDispatchDecision
n_minus_one_stage inp now_ts freeze_s newest =
    let judged = record no_change {
      release_power_w = release_power_w newest;
      release_margin_w = release_margin_w (release_power_w newest);
      release_threshold_w = release_threshold_w newest;
      excess_consumption_w = excess_consumption_w inp;
    } in
    if ltb 0 (release_power_w newest) && leb (release_threshold_w newest) (excess_consumption_w inp)
    then record judged {
      release = some newest.device_id;
      freeze_until_ts = some (now_ts + freeze_s);
      release_mode = ReleaseMode.n_minus_one_incremental;
    }
    else if ltb_ℤ inp.rpc_kw (pos 0)
    then record judged { release_mode = ReleaseMode.n_minus_one_hold }
    else activation_stage inp now_ts freeze_s

-- The stages behind the freeze, by the number of active targets.
unfoldable pub settled_stage :
    SurplusDispatchInput → ℕ → ℕ → List SurplusDeviceTarget → SurplusDispatchDecision
settled_stage inp now_ts freeze_s [] = activation_stage inp now_ts freeze_s
settled_stage inp now_ts freeze_s (anchor ∷ []) =
    if leb_ℤ inp.rpnz_w surplus_release_deadband_w
    then record no_change {
      release = some anchor.device_id;
      release_mode = ReleaseMode.anchor_rpnz_deadband;
    }
    else activation_stage inp now_ts freeze_s
settled_stage inp now_ts freeze_s (anchor ∷ second ∷ rest) = elim (last_target (second ∷ rest)) [
  | some newest ↦ n_minus_one_stage inp now_ts freeze_s newest
  | none ↦ activation_stage inp now_ts freeze_s
]

unfoldable pub compute_surplus_device_dispatch :
    SurplusDispatchInput → ℕ → ℕ → SurplusDispatchDecision
compute_surplus_device_dispatch inp now_ts freeze_s =
    if inp.policy_active
    then (elim (first_ineligible inp.targets) [
      | some t ↦ record no_change {
        release = some t.device_id;
        release_mode = ReleaseMode.ineligible;
      }
      | none ↦
          if is_frozen inp.freeze_until_ts now_ts
          then no_change
          else settled_stage inp now_ts freeze_s
              (active_targets_in_activation_order inp.targets inp.active_device_ids)
    ])
    else record no_change { clear_all = true; freeze_until_ts = some now_ts }
