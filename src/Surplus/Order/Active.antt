-- ===== src/Surplus/Order/Active.antt =====
-- Theorems on Surplus/Order: _active_targets_in_activation_order.
use ha_ems.Prelude.{
  ◌≡◌, refl, sym, ◌∙◌, subst, ◌||◌, List, [], ◌∷◌, ◌++◌, some, String, same, same_iff, has_id,
  has_id-append, IsDistinct, append-IsDistinct, All, Bool-cases, Option-cases, inl, inr, arith,
}
use ha_ems.Domain.Models.{SurplusDeviceTarget}
use ha_ems.Surplus.Order.{
  active_targets_priority_desc, find_active, Selection, append_unseen, select_persisted,
  select_remaining, empty_selection, active_targets_in_activation_order, last_target,
}
use ha_ems.Surplus.Order.Prioritized.{
  has_active, ids_of, IsActiveOf, find_active-IsActiveOf, active_targets_priority_desc-has_id,
  active_targets_priority_desc-All, has_active_of_All,
}

ids_of-append :
    (xs : List SurplusDeviceTarget) (t : SurplusDeviceTarget)
    → ids_of (xs ++ t ∷ []) ≡ ids_of xs ++ t.device_id ∷ []
ids_of-append [] t = refl
ids_of-append (x ∷ xs) t = rw (ids_of-append xs t)

All-append :
    (P : SurplusDeviceTarget → Type 0) (xs : List SurplusDeviceTarget) (t : SurplusDeviceTarget)
    → All P xs
    → P t
    → All P (xs ++ t ∷ [])
All-append P [] t h p = (p, tt)
All-append P (x ∷ xs) t h p = (h.0, All-append P xs t h.1 p)

-- What the two loops keep: `seen` holds the identifiers of `ordered`, which are distinct, and
-- every target of `ordered` is an active one.
record IsSelection (targets : List SurplusDeviceTarget) (s : Selection) : Type 0 where
  distinct : IsDistinct (ids_of s.ordered)
  agree : (x : String) → has_id x s.seen ≡ has_id x (ids_of s.ordered)
  active : All (IsActiveOf targets) s.ordered

append_unseen-seen :
    (x : String) (s : Selection) (t : SurplusDeviceTarget)
    → has_id x (append_unseen s t).seen ≡ (same x t.device_id || has_id x s.seen)
unfolding has_id
append_unseen-seen x s t = ground (arith, same_iff x t.device_id)

append_unseen-IsSelection :
    (targets : List SurplusDeviceTarget) (s : Selection) (t : SurplusDeviceTarget)
    → IsSelection targets s
    → IsActiveOf targets t
    → IsSelection targets (append_unseen s t)
append_unseen-IsSelection targets s t h p = elim (Bool-cases (has_id t.device_id s.seen)) [
  | inl e ↦ rw e h
  | inr e ↦ rw e (record {
    distinct = rw (ids_of-append s.ordered t) (
        append-IsDistinct t.device_id (ids_of s.ordered) h.distinct
          (sym (h.agree t.device_id) ∙ e));
    agree = λ x.
        unfold has_id in
        ground (
          arith,
          h.agree x,
          ids_of-append s.ordered t,
          has_id-append x (ids_of s.ordered) (t.device_id ∷ []),
        );
    active = All-append (IsActiveOf targets) s.ordered t h.active p;
  })
]

select_persisted-IsSelection :
    (targets : List SurplusDeviceTarget) (s : Selection) (ids : List String)
    → IsSelection targets s
    → IsSelection targets (select_persisted targets s ids)
unfolding select_persisted
select_persisted-IsSelection targets s [] h = h
select_persisted-IsSelection targets s (x ∷ ids) h = elim (Option-cases (find_active x targets)) [
  | inl e ↦ rw e (select_persisted-IsSelection targets s ids h)
  | inr (t, e) ↦ rw e (
      select_persisted-IsSelection targets (append_unseen s t) ids
        (append_unseen-IsSelection targets s t h (find_active-IsActiveOf x targets e).0))
]

select_remaining-IsSelection :
    (targets : List SurplusDeviceTarget) (s : Selection) (ts : List SurplusDeviceTarget)
    → IsSelection targets s
    → All (IsActiveOf targets) ts
    → IsSelection targets (select_remaining s ts)
unfolding select_remaining
select_remaining-IsSelection targets s [] h p = h
select_remaining-IsSelection targets s (t ∷ ts) h p =
    select_remaining-IsSelection targets (append_unseen s t) ts
      (append_unseen-IsSelection targets s t h p.0) p.1

select_remaining-seen :
    (x : String) (s : Selection) (ts : List SurplusDeviceTarget)
    → has_id x (select_remaining s ts).seen ≡ (has_id x (ids_of ts) || has_id x s.seen)
unfolding select_remaining has_id
select_remaining-seen x s [] = refl
select_remaining-seen x s (t ∷ ts) =
    ground (arith, select_remaining-seen x (append_unseen s t) ts, append_unseen-seen x s t)

empty-IsSelection : (targets : List SurplusDeviceTarget) → IsSelection targets empty_selection
unfolding has_id
empty-IsSelection targets = record { distinct = tt; agree = λ x. refl; active = tt }

-- The activation order holds each active identifier once and no other, and each of its targets is
-- active.
pub record IsActiveSequence (targets order : List SurplusDeviceTarget) : Type 0 where
  pub distinct : IsDistinct (ids_of order)
  pub active : All (IsActiveOf targets) order
  pub complete : (x : String) → has_id x (ids_of order) ≡ has_active x targets

-- Whatever identifiers were persisted, the activation order holds every active identifier exactly
-- once and nothing that is not active.
pub active_targets_in_activation_order-IsActiveSequence :
    (targets : List SurplusDeviceTarget) (active_device_ids : List String)
    → IsActiveSequence targets (active_targets_in_activation_order targets active_device_ids)
unfolding active_targets_in_activation_order
active_targets_in_activation_order-IsActiveSequence targets ids =
    let persisted =
      select_persisted-IsSelection targets empty_selection ids (empty-IsSelection targets) in
    let done =
      select_remaining-IsSelection targets (select_persisted targets empty_selection ids)
        (active_targets_priority_desc targets) persisted
        (active_targets_priority_desc-All targets) in
    record {
      distinct = done.distinct;
      active = done.active;
      complete = λ x. ground (
        arith,
        done.agree x,
        persisted.agree x,
        select_remaining-seen x (select_persisted targets empty_selection ids)
            (active_targets_priority_desc targets),
        active_targets_priority_desc-has_id x targets,
        has_active_of_All x targets (select_persisted targets empty_selection ids).ordered
            persisted.active,
      );
    }

pub last_target-All :
    (P : SurplusDeviceTarget → Type 0) (ts : List SurplusDeviceTarget) {t : SurplusDeviceTarget}
    → All P ts
    → last_target ts ≡ some t
    → P t
unfolding last_target
last_target-All P [] h e = absurd (cc e)
last_target-All P (t ∷ []) {t = r} h e = subst P (cc) h.0
last_target-All P (t ∷ u ∷ ts) h e = last_target-All P (u ∷ ts) h.1 e
