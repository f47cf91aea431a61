-- ===== src/Surplus/Contexts/Qualified.antt =====
-- Theorems on Surplus/Contexts: which devices become targets, and which the allocator activates.
use ha_ems.Prelude.{
  ℕ, ◌+◌, true, false, ◌&&◌, not, some, List, [], ◌∷◌, Memᴰ, All, String, same, same_iff, has_id,
  ltb_ℤ, ◌≡◌, ◌≢◌, refl, sym, subst, ap, ◌∙◌, arith, Bool-cases, inl, inr,
}
use ha_ems.Domain.Models.{Device, SurplusDeviceTarget, SurplusDispatchInput}
use ha_ems.Surplus.Contexts.{
  CandidateInput, CandidateContext, is_candidate, is_surplus_allowed, is_forced_on, is_allowed_by,
  candidate_context, candidate_contexts, insert_context, insert_contexts,
  generic_surplus_candidate_contexts, candidate_target, targets_from, build_surplus_candidates,
  surplus_targets,
}
use ha_ems.Surplus.Allocator.{compute_surplus_device_dispatch}
use ha_ems.Surplus.Allocator.Safety.{dispatch-activate}
use ha_ems.Surplus.Order.{is_eligible}

-- A context of one of the devices that is kept.
pub record IsContextOf (i : CandidateInput) (ds : List Device) (c : CandidateContext) : Type 0 where
  pub device : Device
  pub member : Memᴰ device ds
  pub apart : same device.device_id i.primary_consuming_device_id ≡ false
  pub kept : is_candidate i device ≡ true
  pub made : c ≡ candidate_context i device

pub All-more :
    {A : Type 0} {P Q : A → Type 0} (xs : List A) → ((x : A) → P x → Q x) → All P xs → All Q xs
All-more [] f h = tt
All-more (x ∷ xs) f (h, hs) = (f x h, All-more xs f hs)

All-member : {A : Type 0} (P : A → Type 0) {x : A} (xs : List A) → All P xs → Memᴰ x xs → P x
All-member P [] h m = elim m [ ]
All-member P (y ∷ ys) (h, hs) (Memᴰ.head e) = subst P (sym e) h
All-member P (y ∷ ys) (h, hs) (Memᴰ.tail m) = All-member P ys hs m

IsContextOf-tail :
    (i : CandidateInput) (d : Device) (ds : List Device) (c : CandidateContext)
    → IsContextOf i ds c
    → IsContextOf i (d ∷ ds) c
IsContextOf-tail i d ds c h = record {
  device = h.device;
  member = Memᴰ.tail h.member;
  apart = h.apart;
  kept = h.kept;
  made = h.made;
}

candidate_contexts-All :
    (i : CandidateInput) (ds : List Device) → All (IsContextOf i ds) (candidate_contexts i ds)
unfolding candidate_contexts
candidate_contexts-All i [] = tt
candidate_contexts-All i (d ∷ ds) =
    let rest =
      All-more (candidate_contexts i ds) (IsContextOf-tail i d ds) (candidate_contexts-All i ds) in
    elim (Bool-cases (not (same d.device_id i.primary_consuming_device_id) && is_candidate i d)) [
      | inl e ↦ rw e (
        record {
          device = d;
          member = Memᴰ.head refl;
          apart = ground arith;
          kept = ground arith;
          made = refl;
        },
        rest,
      )
      | inr e ↦ rw e rest
    ]

pub insert_context-All :
    (P : CandidateContext → Type 0) (c : CandidateContext) (cs : List CandidateContext)
    → P c
    → All P cs
    → All P (insert_context c cs)
unfolding insert_context
insert_context-All P c [] h hs = (h, tt)
insert_context-All P c (o ∷ os) h (k, ks) = elim (Bool-cases (ltb_ℤ o.priority c.priority)) [
  | inl e ↦ rw e (h, (k, ks))
  | inr e ↦ rw e (k, insert_context-All P c os h ks)
]

insert_contexts-All :
    (P : CandidateContext → Type 0) (ordered cs : List CandidateContext)
    → All P ordered
    → All P cs
    → All P (insert_contexts ordered cs)
unfolding insert_contexts
insert_contexts-All P ordered [] h hs = h
insert_contexts-All P ordered (c ∷ cs) h (k, ks) =
    insert_contexts-All P (insert_context c ordered) cs (insert_context-All P c ordered k h) ks

-- A target of one of the devices.
pub record IsTargetOf (i : CandidateInput) (t : SurplusDeviceTarget) : Type 0 where
  pub device : Device
  pub member : Memᴰ device i.devices
  pub apart : same device.device_id i.primary_consuming_device_id ≡ false
  pub kept : is_candidate i device ≡ true
  pub rank : ℕ
  pub made : t ≡ candidate_target (candidate_context i device) rank

targets_from-All :
    (i : CandidateInput) (rank : ℕ) (cs : List CandidateContext)
    → All (IsContextOf i i.devices) cs
    → All (IsTargetOf i) (targets_from rank cs)
unfolding targets_from
targets_from-All i rank [] h = tt
targets_from-All i rank (c ∷ cs) (h, hs) = elim (Bool-cases (same c.device_id "")) [
  | inl e ↦ rw e (targets_from-All i (rank + 1) cs hs)
  | inr e ↦ rw e (
    record {
      device = h.device;
      member = h.member;
      apart = h.apart;
      kept = h.kept;
      rank = rank;
      made = ap (λ x. candidate_target x rank) h.made;
    },
    targets_from-All i (rank + 1) cs hs,
  )
]

pub surplus_targets-All : (i : CandidateInput) → All (IsTargetOf i) (surplus_targets i)
unfolding surplus_targets generic_surplus_candidate_contexts build_surplus_candidates
surplus_targets-All i = targets_from-All i 1 (insert_contexts [] (candidate_contexts i i.devices)) (
    insert_contexts-All (IsContextOf i i.devices) [] (candidate_contexts i i.devices) tt
      (candidate_contexts-All i i.devices))

-- The device that a decision may activate.
pub record MayBeActivated (i : CandidateInput) (x : String) : Type 0 where
  pub device : Device
  pub configured : Memᴰ device i.devices
  pub identified : device.device_id ≡ x
  pub apart : x ≢ i.primary_consuming_device_id
  pub can_absorb : device.capabilities.can_absorb_w ≡ true
  pub allowed : is_surplus_allowed i device ≡ true
  pub not_forced : is_forced_on i device ≡ false
  pub not_active : has_id x i.active_device_ids ≡ false
  pub not_latched : is_allowed_by (i.transition_of x) ≡ true

eligible_target-MayBeActivated :
    (i : CandidateInput) (d : Device) (rank : ℕ)
    → Memᴰ d i.devices
    → same d.device_id i.primary_consuming_device_id ≡ false
    → is_eligible (candidate_target (candidate_context i d) rank) ≡ true
    → MayBeActivated i d.device_id
unfolding candidate_context candidate_target
eligible_target-MayBeActivated i d rank member apart e = record {
  device = d;
  configured = member;
  identified = refl;
  apart = λ p. let q = (same_iff d.device_id i.primary_consuming_device_id).1 p in absurd (cc);
  can_absorb = ground arith;
  allowed = ground arith;
  not_forced = ground arith;
  not_active = ground arith;
  not_latched = ground arith;
}

target-MayBeActivated :
    (i : CandidateInput) (t : SurplusDeviceTarget)
    → IsTargetOf i t
    → is_eligible t ≡ true
    → MayBeActivated i t.device_id
unfolding candidate_context candidate_target
target-MayBeActivated i t h e =
    let id = ap (λ u. u.device_id) h.made in
    subst (MayBeActivated i) (sym id) (
      eligible_target-MayBeActivated i h.device h.rank h.member h.apart
        (ap is_eligible (sym h.made) ∙ e))

-- A device that the allocator activates on the targets of a tick is configured, is not the effective
-- primary consumer, can absorb power, is allowed to take surplus, is not forced on and not active
-- yet, and the hard-off latch allows it.
pub activated-MayBeActivated :
    (i : CandidateInput) (inp : SurplusDispatchInput) (now_ts freeze_s : ℕ) {x : String}
    → inp.targets ≡ surplus_targets i
    → (compute_surplus_device_dispatch inp now_ts freeze_s).activate ≡ some x
    → MayBeActivated i x
activated-MayBeActivated i inp now_ts freeze_s built e =
    let (justified, _) = dispatch-activate inp now_ts freeze_s e in
    let best = justified.best in
    subst (MayBeActivated i) justified.chosen_id (
      target-MayBeActivated i justified.chosen
        (All-member (IsTargetOf i) inp.targets
          (subst (All (IsTargetOf i)) (sym built) (surplus_targets-All i)) best.member)
        best.eligible)
