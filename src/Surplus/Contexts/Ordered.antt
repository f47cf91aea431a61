-- ===== src/Surplus/Contexts/Ordered.antt =====
-- Theorems on Surplus/Contexts: the order of the targets.
use ha_ems.Prelude.{
  ℕ, ◌+◌, ◌≤◌, true, List, [], ◌∷◌, All, same, ltb_ℤ, ◌≤ℤ◌, ◌≡◌, arith, Bool-cases, inl, inr,
}
use ha_ems.Domain.Models.{SurplusDeviceTarget}
use ha_ems.Surplus.Order.{beats}
use ha_ems.Surplus.Contexts.{
  CandidateInput, CandidateContext, candidate_contexts, insert_context, insert_contexts,
  generic_surplus_candidate_contexts, candidate_target, targets_from, build_surplus_candidates,
  surplus_targets,
}
use ha_ems.Surplus.Contexts.Qualified.{All-more, insert_context-All}

IsDescending : List CandidateContext → Type 0
IsDescending [] = Unit {0}
IsDescending (c ∷ cs) = All (λ o. o.priority ≤ℤ c.priority) cs × IsDescending cs

insert_context-IsDescending :
    (c : CandidateContext) (cs : List CandidateContext)
    → IsDescending cs
    → IsDescending (insert_context c cs)
unfolding insert_context IsDescending
insert_context-IsDescending c [] h = (tt, tt)
insert_context-IsDescending c (o ∷ os) (h, hs) = elim (Bool-cases (ltb_ℤ o.priority c.priority)) [
  | inl e ↦
      let below : o.priority ≤ℤ c.priority = ground arith in
      rw e ((below, All-more os (λ x k. ground arith) h), (h, hs))
  | inr e ↦ rw e (
    insert_context-All (λ x. x.priority ≤ℤ o.priority) c os (ground arith) h,
    insert_context-IsDescending c os hs,
  )
]

insert_contexts-IsDescending :
    (ordered cs : List CandidateContext)
    → IsDescending ordered
    → IsDescending (insert_contexts ordered cs)
unfolding insert_contexts
insert_contexts-IsDescending ordered [] h = h
insert_contexts-IsDescending ordered (c ∷ cs) h =
    insert_contexts-IsDescending (insert_context c ordered) cs
      (insert_context-IsDescending c ordered h)

-- Each target precedes all later ones in the order of the allocator.
pub IsStrictlyOrdered : List SurplusDeviceTarget → Type 0
IsStrictlyOrdered [] = Unit {0}
IsStrictlyOrdered (t ∷ ts) = All (λ u. beats t u ≡ true) ts × IsStrictlyOrdered ts

targets_from-below :
    (t : SurplusDeviceTarget) (rank : ℕ) (cs : List CandidateContext)
    → t.rank + 1 ≤ rank
    → All (λ o. o.priority ≤ℤ t.priority) cs
    → All (λ u. beats t u ≡ true) (targets_from rank cs)
unfolding targets_from candidate_target
targets_from-below t rank [] h k = tt
targets_from-below t rank (c ∷ cs) h (k, ks) =
    let rest = targets_from-below t (rank + 1) cs (omega (arith, h)) ks in
    elim (Bool-cases (same c.device_id "")) [
      | inl e ↦ rw e rest
      | inr e ↦ rw e (ground (arith, h, k), rest)
    ]

targets_from-IsStrictlyOrdered :
    (rank : ℕ) (cs : List CandidateContext)
    → IsDescending cs
    → IsStrictlyOrdered (targets_from rank cs)
unfolding targets_from candidate_target IsDescending IsStrictlyOrdered
targets_from-IsStrictlyOrdered rank [] h = tt
targets_from-IsStrictlyOrdered rank (c ∷ cs) (h, hs) =
    let rest = targets_from-IsStrictlyOrdered (rank + 1) cs hs in
    elim (Bool-cases (same c.device_id "")) [
      | inl e ↦ rw e rest
      | inr e ↦
          rw e (targets_from-below (candidate_target c rank) (rank + 1) cs (ground arith) h, rest)
    ]

-- The targets that the allocator is given stand in its strict order: a target precedes every later
-- one, by a higher priority or by the same priority and a lower rank.
pub surplus_targets-IsStrictlyOrdered : (i : CandidateInput) → IsStrictlyOrdered (surplus_targets i)
unfolding surplus_targets generic_surplus_candidate_contexts build_surplus_candidates IsDescending
surplus_targets-IsStrictlyOrdered i =
    targets_from-IsStrictlyOrdered 1 (insert_contexts [] (candidate_contexts i i.devices))
      (insert_contexts-IsDescending [] (candidate_contexts i i.devices) tt)
