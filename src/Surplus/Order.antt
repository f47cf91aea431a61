-- ===== src/Surplus/Order.antt =====
-- surplus_allocator.py: strict priority order, activation order and the next candidate.
pub mod Active
pub mod Candidates
pub mod Prioritized
use ha_ems.Prelude.{
  ℕ, ◌+◌, ◌*◌, ◌/◌, Bool, true, false, ◌&&◌, ◌||◌, not, List, [], ◌∷◌, ◌++◌, Option, none, some,
  String, same, has_id, ltb, ℤ, pos, pos_part, ltb_ℤ, eqb_ℤ, leb_ℤ, round_to, round_div,
  if◌then◌else◌,
}
use ha_ems.Domain.Models.{SurplusDeviceTarget}

-- RPNZ_PRACTICAL_ZERO_W, SURPLUS_RELEASE_DEADBAND_W.
abbrev pub surplus_release_deadband_w : ℤ
surplus_release_deadband_w = pos 10000

abbrev pub n_minus_one_release_min_margin_w : ℕ
n_minus_one_release_min_margin_w = 100000

abbrev pub beats : SurplusDeviceTarget → SurplusDeviceTarget → Bool
beats candidate current =
    if ltb_ℤ current.priority candidate.priority
    then true
    else if eqb_ℤ candidate.priority current.priority && ltb candidate.rank current.rank
    then true
    else false

unfoldable pub is_higher_priority_candidate :
    SurplusDeviceTarget → Option SurplusDeviceTarget → Bool
is_higher_priority_candidate candidate none = true
is_higher_priority_candidate candidate (some current) = beats candidate current

unfoldable pub is_lower_priority_active : SurplusDeviceTarget → Option SurplusDeviceTarget → Bool
is_lower_priority_active candidate none = true
is_lower_priority_active candidate (some current) =
    if ltb_ℤ candidate.priority current.priority
    then true
    else if eqb_ℤ candidate.priority current.priority && ltb current.rank candidate.rank
    then true
    else false

-- `target.active and target.priority > 0`.
abbrev pub is_active : SurplusDeviceTarget → Bool
is_active t = t.active && ltb_ℤ (pos 0) t.priority

-- The `while` loop: before the first target that this one precedes, else at the end.
unfoldable pub insert_by_priority :
    SurplusDeviceTarget → List SurplusDeviceTarget → List SurplusDeviceTarget
insert_by_priority t [] = t ∷ []
insert_by_priority t (u ∷ ordered) =
    if is_higher_priority_candidate t (some u)
    then t ∷ u ∷ ordered
    else u ∷ insert_by_priority t ordered

unfoldable pub insert_active_targets :
    List SurplusDeviceTarget → List SurplusDeviceTarget → List SurplusDeviceTarget
insert_active_targets ordered [] = ordered
insert_active_targets ordered (t ∷ targets) =
    insert_active_targets (if is_active t then insert_by_priority t ordered else ordered) targets

unfoldable pub active_targets_priority_desc : List SurplusDeviceTarget → List SurplusDeviceTarget
unfolding insert_active_targets insert_by_priority is_higher_priority_candidate
active_targets_priority_desc targets = insert_active_targets [] targets

-- `active_by_id.get(device_id)`: of two active targets with one identifier the later is kept.
unfoldable pub find_active : String → List SurplusDeviceTarget → Option SurplusDeviceTarget
find_active device_id [] = none
find_active device_id (t ∷ targets) = elim (find_active device_id targets) [
  | some later ↦ some later
  | none ↦ if is_active t && same device_id t.device_id then some t else none
]

pub record Selection : Type 0 where
  pub ordered : List SurplusDeviceTarget
  pub seen : List String

-- `ordered.append(target); seen.add(device_id)` unless the identifier was seen.
abbrev pub append_unseen : Selection → SurplusDeviceTarget → Selection
append_unseen s t =
    if has_id t.device_id s.seen
    then s
    else record { ordered = s.ordered ++ t ∷ []; seen = t.device_id ∷ s.seen }

-- The loop over the persisted identifiers.
unfoldable pub select_persisted : List SurplusDeviceTarget → Selection → List String → Selection
select_persisted targets s [] = s
select_persisted targets s (device_id ∷ ids) =
    select_persisted targets
      (elim (find_active device_id targets) [ none ↦ s | some t ↦ append_unseen s t ]) ids

-- The loop over the active targets that are left.
unfoldable pub select_remaining : Selection → List SurplusDeviceTarget → Selection
select_remaining s [] = s
select_remaining s (t ∷ targets) = select_remaining (append_unseen s t) targets

abbrev pub empty_selection : Selection
empty_selection = record { ordered = []; seen = [] }

unfoldable pub active_targets_in_activation_order :
    List SurplusDeviceTarget → List String → List SurplusDeviceTarget
unfolding select_remaining select_persisted active_targets_priority_desc find_active has_id
active_targets_in_activation_order targets active_device_ids =
    (select_remaining (select_persisted targets empty_selection active_device_ids)
      (active_targets_priority_desc targets)).ordered

-- The test of `_highest_priority_candidate` on one target, at the threshold `threshold_w`.
abbrev pub is_eligible : SurplusDeviceTarget → Bool
is_eligible t =
    ltb_ℤ (pos 0) t.priority
    && t.enabled
    && t.activation_allowed
    && not t.force_on
    && not t.active
    && ltb_ℤ (pos 0) t.threshold_w

unfoldable pub select_highest :
    Option SurplusDeviceTarget → List SurplusDeviceTarget → Option SurplusDeviceTarget
select_highest selected [] = selected
select_highest selected (t ∷ targets) =
    select_highest
      (if is_eligible t && is_higher_priority_candidate t selected then some t else selected)
      targets

unfoldable pub next_device_target : List SurplusDeviceTarget → Option SurplusDeviceTarget
unfolding select_highest is_higher_priority_candidate
next_device_target targets = select_highest none targets

unfoldable pub select_lowest :
    Option SurplusDeviceTarget → List SurplusDeviceTarget → Option SurplusDeviceTarget
select_lowest selected [] = selected
select_lowest selected (t ∷ targets) =
    select_lowest (if is_active t && is_lower_priority_active t selected then some t else selected)
      targets

unfoldable pub lowest_priority_active : List SurplusDeviceTarget → Option SurplusDeviceTarget
unfolding select_lowest is_lower_priority_active
lowest_priority_active targets = select_lowest none targets

-- `active[-1]`, where there is one.
unfoldable pub last_target : List SurplusDeviceTarget → Option SurplusDeviceTarget
last_target [] = none
last_target (t ∷ []) = some t
last_target (t ∷ u ∷ targets) = last_target (u ∷ targets)

unfoldable pub release_device_target :
    List SurplusDeviceTarget → List String → Option SurplusDeviceTarget
unfolding active_targets_in_activation_order lowest_priority_active last_target
release_device_target targets active_device_ids =
    elim (last_target (active_targets_in_activation_order targets active_device_ids)) [
      | some t ↦ some t
      | none ↦ lowest_priority_active targets
    ]

-- A whole number of watts, in milliwatts.
unfoldable pub release_power_w : SurplusDeviceTarget → ℕ
release_power_w t = elim t.releasable_power_w [
  | some configured ↦
      if ltb_ℤ (pos 0) configured
      then pos_part (round_to 1000 configured)
      else pos_part (round_to 1000 t.threshold_w)
  | none ↦ pos_part (round_to 1000 t.threshold_w)
]

-- The larger of 100 W and 5 % of the power, counted in twentieths of a milliwatt and rounded to
-- whole watts.
unfoldable pub release_margin_w : ℕ → ℕ
release_margin_w power_w =
    round_div
      (if ltb (20 * n_minus_one_release_min_margin_w) power_w
        then power_w
        else 20 * n_minus_one_release_min_margin_w)
      20000
    * 1000
