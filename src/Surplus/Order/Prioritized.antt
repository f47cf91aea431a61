-- ===== src/Surplus/Order/Prioritized.antt =====
-- Theorems on Surplus/Order: find_active, and the active targets in priority order.
use ha_ems.Prelude.{
  ◌≡◌, refl, Bool, true, false, ◌&&◌, ◌||◌, List, [], ◌∷◌, some, String, same, same_iff, has_id,
  All, Bool-cases, Option-cases, inl, inr, arith,
}
use ha_ems.Domain.Models.{SurplusDeviceTarget}
use ha_ems.Surplus.Order.{
  is_higher_priority_candidate, is_active, insert_by_priority, insert_active_targets,
  active_targets_priority_desc, find_active,
}

-- Some active target of the list has this identifier.
unfoldable pub has_active : String → List SurplusDeviceTarget → Bool
has_active x [] = false
has_active x (t ∷ ts) = (is_active t && same x t.device_id) || has_active x ts

abbrev pub ids_of : List SurplusDeviceTarget → List String
ids_of [] = []
ids_of (t ∷ ts) = t.device_id ∷ ids_of ts

-- Active, and one of the targets.
abbrev pub IsActiveOf : List SurplusDeviceTarget → SurplusDeviceTarget → Type 0
IsActiveOf targets t = (is_active t ≡ true) × (has_active t.device_id targets ≡ true)

IsSame-refl : (x : String) → same x x ≡ true
IsSame-refl x = (same_iff x x).1 refl

pub find_active-IsActiveOf :
    (x : String) (targets : List SurplusDeviceTarget) {t : SurplusDeviceTarget}
    → find_active x targets ≡ some t
    → IsActiveOf targets t × (t.device_id ≡ x)
unfolding find_active has_active
find_active-IsActiveOf x [] e = cc
find_active-IsActiveOf x (u ∷ targets) {t} e = elim (Option-cases (find_active x targets)) [
  | inl none_later ↦
      ground
        (arith, same_iff x u.device_id, IsSame-refl u.device_id, same_iff t.device_id u.device_id)
  | inr (later, found) ↦ ground (arith, find_active-IsActiveOf x targets {t = later} found)
]

insert_by_priority-has_id :
    (x : String) (t : SurplusDeviceTarget) (ordered : List SurplusDeviceTarget)
    → has_id x (ids_of (insert_by_priority t ordered))
      ≡ (same x t.device_id || has_id x (ids_of ordered))
unfolding insert_by_priority has_id
insert_by_priority-has_id x t [] = refl
insert_by_priority-has_id x t (u ∷ ordered) = ground (arith, insert_by_priority-has_id x t ordered)

insert_by_priority-All :
    (P : SurplusDeviceTarget → Type 0) (t : SurplusDeviceTarget)
    (ordered : List SurplusDeviceTarget)
    → P t
    → All P ordered
    → All P (insert_by_priority t ordered)
unfolding insert_by_priority
insert_by_priority-All P t [] p h = (p, tt)
insert_by_priority-All P t (u ∷ ordered) p h =
    elim (Bool-cases (is_higher_priority_candidate t (some u))) [
      | inl e ↦ rw e (p, h)
      | inr e ↦ rw e (h.0, insert_by_priority-All P t ordered p h.1)
    ]

insert_active_targets-has_id :
    (x : String) (ordered targets : List SurplusDeviceTarget)
    → has_id x (ids_of (insert_active_targets ordered targets))
      ≡ (has_id x (ids_of ordered) || has_active x targets)
unfolding insert_active_targets has_active
insert_active_targets-has_id x ordered [] = ground arith
insert_active_targets-has_id x ordered (t ∷ targets) = ground (
  arith,
  insert_active_targets-has_id x (insert_by_priority t ordered) targets,
  insert_active_targets-has_id x ordered targets,
  insert_by_priority-has_id x t ordered,
)

pub active_targets_priority_desc-has_id :
    (x : String) (targets : List SurplusDeviceTarget)
    → has_id x (ids_of (active_targets_priority_desc targets)) ≡ has_active x targets
unfolding active_targets_priority_desc has_active has_id
active_targets_priority_desc-has_id x targets = insert_active_targets-has_id x [] targets

All-map :
    {P Q : SurplusDeviceTarget → Type 0} (f : (u : SurplusDeviceTarget) → P u → Q u)
    (ts : List SurplusDeviceTarget)
    → All P ts
    → All Q ts
All-map f [] h = tt
All-map f (t ∷ ts) h = (f t h.0, All-map f ts h.1)

active-IsActiveOf :
    (ts : List SurplusDeviceTarget) → All (λ u. is_active u ≡ true → IsActiveOf ts u) ts
unfolding has_active
active-IsActiveOf [] = tt
active-IsActiveOf (t ∷ ts) = (
  (λ e. (e, ground (arith, IsSame-refl t.device_id))),
  All-map (λ u h e. (e, ground (arith, (h e).1))) ts (active-IsActiveOf ts),
)

insert_active_targets-All :
    (P : SurplusDeviceTarget → Type 0) (ordered targets : List SurplusDeviceTarget)
    → All P ordered
    → All (λ u. is_active u ≡ true → P u) targets
    → All P (insert_active_targets ordered targets)
unfolding insert_active_targets
insert_active_targets-All P ordered [] h k = h
insert_active_targets-All P ordered (t ∷ targets) h k = elim (Bool-cases (is_active t)) [
  | inl e ↦ rw e (
      insert_active_targets-All P (insert_by_priority t ordered) targets
        (insert_by_priority-All P t ordered (k.0 e) h) k.1)
  | inr e ↦ rw e (insert_active_targets-All P ordered targets h k.1)
]

pub active_targets_priority_desc-All :
    (targets : List SurplusDeviceTarget)
    → All (IsActiveOf targets) (active_targets_priority_desc targets)
unfolding active_targets_priority_desc
active_targets_priority_desc-All targets =
    insert_active_targets-All (IsActiveOf targets) [] targets tt (active-IsActiveOf targets)

pub has_active_of_All :
    (x : String) (targets ts : List SurplusDeviceTarget)
    → All (IsActiveOf targets) ts
    → has_id x (ids_of ts) ≡ true
    → has_active x targets ≡ true
unfolding has_id
has_active_of_All x targets [] h e = cc
has_active_of_All x targets (t ∷ ts) h e =
    ground (arith, same_iff x t.device_id, has_active_of_All x targets ts h.1)
