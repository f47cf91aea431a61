-- ===== src/Surplus/Contexts/Complete.antt =====
-- Theorems on Surplus/Contexts: no device that may be activated or released is left out.
use ha_ems.Prelude.{
  ℕ, ◌+◌, Bool, true, false, ◌&&◌, not, List, [], ◌∷◌, Memᴰ, same, ltb_ℤ, ◌≡◌, refl, ap,
  if◌then◌else◌, arith, Bool-cases, inl, inr,
}
use ha_ems.Domain.Models.{Device, SurplusDeviceTarget}
use ha_ems.Surplus.Contexts.{
  CandidateInput, CandidateContext, is_candidate, candidate_context, candidate_contexts,
  insert_context, insert_contexts, generic_surplus_candidate_contexts, candidate_target,
  targets_from, build_surplus_candidates, surplus_targets,
}

member-if :
    {A : Type 0} {x : A} (y : A) (b : Bool) (xs : List A)
    → Memᴰ x xs
    → Memᴰ x (if b then y ∷ xs else xs)
member-if y true xs m = Memᴰ.tail m
member-if y false xs m = m

candidate_contexts_member :
    (i : CandidateInput) (d : Device) (ds : List Device)
    → same d.device_id i.primary_consuming_device_id ≡ false
    → is_candidate i d ≡ true
    → Memᴰ d ds
    → Memᴰ (candidate_context i d) (candidate_contexts i ds)
unfolding candidate_contexts
candidate_contexts_member i d [] apart kept m = elim m [ ]
candidate_contexts_member i d (e ∷ ds) apart kept (Memᴰ.head p) =
    let q : (not (same e.device_id i.primary_consuming_device_id) && is_candidate i e) ≡ true =
      rw (← p) (ground arith) in
    rw q (Memᴰ.head (ap (candidate_context i) p))
candidate_contexts_member i d (e ∷ ds) apart kept (Memᴰ.tail m) =
    member-if (candidate_context i e)
      (not (same e.device_id i.primary_consuming_device_id) && is_candidate i e)
      (candidate_contexts i ds) (candidate_contexts_member i d ds apart kept m)

insert_context_head :
    (c : CandidateContext) (cs : List CandidateContext) → Memᴰ c (insert_context c cs)
unfolding insert_context
insert_context_head c [] = Memᴰ.head refl
insert_context_head c (o ∷ os) = elim (Bool-cases (ltb_ℤ o.priority c.priority)) [
  | inl e ↦ rw e (Memᴰ.head refl)
  | inr e ↦ rw e (Memᴰ.tail (insert_context_head c os))
]

insert_context_member :
    (c x : CandidateContext) (cs : List CandidateContext) → Memᴰ x cs → Memᴰ x (insert_context c cs)
unfolding insert_context
insert_context_member c x [] m = elim m [ ]
insert_context_member c x (o ∷ os) (Memᴰ.head p) = elim (Bool-cases (ltb_ℤ o.priority c.priority)) [
  | inl e ↦ rw e (Memᴰ.tail (Memᴰ.head p))
  | inr e ↦ rw e (Memᴰ.head p)
]
insert_context_member c x (o ∷ os) (Memᴰ.tail m) = elim (Bool-cases (ltb_ℤ o.priority c.priority)) [
  | inl e ↦ rw e (Memᴰ.tail (Memᴰ.tail m))
  | inr e ↦ rw e (Memᴰ.tail (insert_context_member c x os m))
]

insert_contexts_kept :
    (x : CandidateContext) (ordered cs : List CandidateContext)
    → Memᴰ x ordered
    → Memᴰ x (insert_contexts ordered cs)
unfolding insert_contexts
insert_contexts_kept x ordered [] m = m
insert_contexts_kept x ordered (c ∷ cs) m =
    insert_contexts_kept x (insert_context c ordered) cs (insert_context_member c x ordered m)

insert_contexts_member :
    (x : CandidateContext) (ordered cs : List CandidateContext)
    → Memᴰ x cs
    → Memᴰ x (insert_contexts ordered cs)
unfolding insert_contexts
insert_contexts_member x ordered [] m = elim m [ ]
insert_contexts_member x ordered (c ∷ cs) (Memᴰ.head p) =
    insert_contexts_kept x (insert_context c ordered) cs (rw p (insert_context_head c ordered))
insert_contexts_member x ordered (c ∷ cs) (Memᴰ.tail m) =
    insert_contexts_member x (insert_context c ordered) cs m

-- A target of a context, at some rank.
pub record IsRanked (c : CandidateContext) (targets : List SurplusDeviceTarget) : Type 0 where
  pub rank : ℕ
  pub member : Memᴰ (candidate_target c rank) targets

IsRanked-if :
    (c : CandidateContext) (b : Bool) (t : SurplusDeviceTarget) (ts : List SurplusDeviceTarget)
    → IsRanked c ts
    → IsRanked c (if b then ts else t ∷ ts)
IsRanked-if c true t ts h = h
IsRanked-if c false t ts h = record { rank = h.rank; member = Memᴰ.tail h.member }

targets_from_member :
    (c : CandidateContext) (rank : ℕ) (cs : List CandidateContext)
    → same c.device_id "" ≡ false
    → Memᴰ c cs
    → IsRanked c (targets_from rank cs)
unfolding targets_from
targets_from_member c rank [] named m = elim m [ ]
targets_from_member c rank (o ∷ os) named (Memᴰ.head p) =
    let q : same o.device_id "" ≡ false = rw (← p) named in
    rw q (record { rank = rank; member = Memᴰ.head (ap (λ x. candidate_target x rank) p) })
targets_from_member c rank (o ∷ os) named (Memᴰ.tail m) =
    IsRanked-if c (same o.device_id "") (candidate_target o rank) (targets_from (rank + 1) os)
      (targets_from_member c (rank + 1) os named m)

-- Every configured device with an identifier, other than the effective primary consumer, that is
-- active, or can absorb power and is allowed to take surplus or forced on, is among the targets that
-- the allocator is given.
pub surplus_targets_complete :
    (i : CandidateInput) (d : Device)
    → Memᴰ d i.devices
    → same d.device_id i.primary_consuming_device_id ≡ false
    → is_candidate i d ≡ true
    → same d.device_id "" ≡ false
    → IsRanked (candidate_context i d) (surplus_targets i)
unfolding surplus_targets generic_surplus_candidate_contexts build_surplus_candidates
    candidate_context
surplus_targets_complete i d m apart kept named =
    targets_from_member (candidate_context i d) 1 _ named (
      insert_contexts_member (candidate_context i d) [] (candidate_contexts i i.devices)
        (candidate_contexts_member i d i.devices apart kept m))
