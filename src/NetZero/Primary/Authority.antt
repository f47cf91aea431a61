-- ===== src/NetZero/Primary/Authority.antt =====
-- Theorems on NetZero/Primary: _resolve_primary_consuming_authority and its fallback order.
use ha_ems.Prelude.{
  ℕ, Bool, true, false, ◌&&◌, ◌||◌, not, Option, none, some, List, [], ◌∷◌, ◌++◌, String, same,
  same_iff, has_id, ℤ, pos, pos_part, min_ℤ, ◌≡◌, refl, ap, All, ◌≤ℤ◌, ◌<ℤ◌, arith, Option-cases,
  Bool-cases, ◌⊎◌, inl, inr, IsDistinct, append_new_ids-IsDistinct, append_new_ids-has_id,
}
use ha_ems.Domain.Profiles.{Profiles, is_net_zero, is_automatic, is_horizon_by_haeo}
use ha_ems.Domain.Models.{DeviceControlContext, HaeoNetZeroPlan}
use ha_ems.NetZero.Feedback.{quantize_absorb_target_w}
use ha_ems.NetZero.Judgement.{
  Situation, Verdict, SelectReason, judge, judge_context, judge_request, judge_target, is_protected,
  primary_device_power_envelope_w, SkipReason, is_hard_off, force_on_of,
  compute_primary_consuming_device_target_w, haeo_limited, skipped, chosen,
}
use ha_ems.NetZero.Primary.{
  resolve_loop, resolve_primary_consuming_authority, no_authority, Progress, no_progress, note_skip,
  ConsumingAuthority, ordered_primary_consuming_device_ids, is_configured,
}

-- What is known of a device that is given the authority.
pub record IsRealisable (s : Situation) (device_id : String) (target : ℤ) : Type 0 where
  pub context : DeviceControlContext
  pub found : s.context_of device_id ≡ some context
  pub regulates : context.supports_primary_consuming_regulation ≡ true
  pub absorbs : context.can_absorb_w ≡ true
  pub positive : pos 0 <ℤ target
  pub capped : target ≤ℤ context.max_absorb_w
  pub not_latched :
      (is_hard_off (s.transition_of device_id) ≡ false) ⊎ (force_on_of s.cfg device_id ≡ true)
  pub not_protected : is_protected s device_id context ≡ false

quantize-le-max :
    (requested lowest highest step : ℤ)
    → quantize_absorb_target_w requested lowest highest step ≤ℤ pos (pos_part highest)
unfolding quantize_absorb_target_w min_ℤ
quantize-le-max requested lowest highest step = ground arith

primary_target-le-max :
    (c : DeviceControlContext) (requested : ℤ)
    → compute_primary_consuming_device_target_w c requested ≤ℤ pos (pos_part c.max_absorb_w)
unfolding compute_primary_consuming_device_target_w
primary_target-le-max c requested =
    ground (arith, quantize-le-max requested c.min_absorb_w c.max_absorb_w c.step_w)

haeo_limited-le-max :
    (plan : Option HaeoNetZeroPlan) (device_id : String) (target : ℤ) (m : ℕ)
    → target ≤ℤ pos m
    → haeo_limited plan device_id target ≤ℤ pos m
unfolding haeo_limited min_ℤ
haeo_limited-le-max none device_id target m h = h
haeo_limited-le-max (some plan) device_id target m h = ground arith

judge_target_chosen :
    (c : DeviceControlContext) (requested target : ℤ) {r t : ℤ} {why : SelectReason}
    → judge_target c requested target ≡ chosen r t why
    → (t ≡ target) × (pos 0 <ℤ target)
unfolding judge_target
judge_target_chosen c requested target e = ground arith

judge_request_chosen :
    (s : Situation) (device_id : String) (c : DeviceControlContext) {r t : ℤ} {why : SelectReason}
    → judge_request s device_id c ≡ chosen r t why
    → (pos 0 <ℤ t) × (t ≤ℤ pos (pos_part c.max_absorb_w))
unfolding judge_request
judge_request_chosen s device_id c {r} {t} {why} e =
    let requested = primary_device_power_envelope_w s.cfg.global_config c s.grid_power_w s.rpnz_w in
    let target = compute_primary_consuming_device_target_w c requested in
    ground (
      arith,
      judge_target_chosen c requested (haeo_limited s.haeo_nz_plan device_id target) {r = r} {t = t}
          {why = why},
      haeo_limited-le-max s.haeo_nz_plan device_id target (pos_part c.max_absorb_w)
          (primary_target-le-max c requested),
    )

judge_context-IsRealisable :
    (s : Situation) (device_id : String) (c : DeviceControlContext) {r t : ℤ} {why : SelectReason}
    → s.context_of device_id ≡ some c
    → judge_context s device_id c ≡ chosen r t why
    → IsRealisable s device_id t
unfolding judge_context
judge_context-IsRealisable s device_id c {r} {t} {why} found e =
    let limits = judge_request_chosen s device_id c {r = r} {t = t} {why = why} in
    record {
      context = c;
      found = found;
      regulates = ground arith;
      absorbs = ground arith;
      positive = ground (arith, limits);
      capped = ground (arith, limits);
      not_latched = ground arith;
      not_protected = ground arith;
    }

judge-IsRealisable :
    (s : Situation) (device_id : String) {r t : ℤ} {why : SelectReason}
    → judge s device_id ≡ chosen r t why
    → IsRealisable s device_id t
unfolding judge
judge-IsRealisable s device_id {r} {t} {why} e = elim (Option-cases (s.context_of device_id)) [
  | inl nothing ↦ absurd (ground arith)
  | inr (c, found) ↦
      judge_context-IsRealisable s device_id c {r = r} {why = why} found (ground arith)
]

-- The loop's body skips this candidate.
abbrev pub IsSkipped : Situation → String → Type 0
IsSkipped s x =
    (reason : SkipReason) × (requested : Option ℤ) × (judge s x ≡ skipped reason requested)

-- The authority fell to a realisable candidate, and all candidates before it are skipped.
pub record IsFirstRealisable (s : Situation) (ids : List String) (a : ConsumingAuthority)
    : Type 0 where
  pub earlier : List String
  pub later : List String
  pub position : ids ≡ earlier ++ a.effective_device_id ∷ later
  pub all_skipped : All (IsSkipped s) earlier
  pub realisable : IsRealisable s a.effective_device_id a.effective_target_w

-- Nobody has the authority.
pub record IsNobody (s : Situation) (ids : List String) (a : ConsumingAuthority) : Type 0 where
  pub no_device : a.effective_device_id ≡ ""
  pub no_target : a.effective_target_w ≡ pos 0
  pub none_realisable : All (IsSkipped s) ids

Verdict-cases :
    (v : Verdict)
    → ((reason : SkipReason) × (requested : Option ℤ) × (v ≡ skipped reason requested))
      ⊎ ((r : ℤ) × (t : ℤ) × (why : SelectReason) × (v ≡ chosen r t why))
Verdict-cases (skipped reason requested) = inl (reason, requested, refl)
Verdict-cases (chosen r t why) = inr (r, t, why, refl)

resolve_loop-first :
    (s : Situation) (configured : Bool) (ids : List String) (p : Progress)
    → IsFirstRealisable s ids (resolve_loop s configured ids p)
      ⊎ IsNobody s ids (resolve_loop s configured ids p)
unfolding resolve_loop no_authority
resolve_loop-first s configured [] p =
    inr (record { no_device = refl; no_target = refl; none_realisable = tt })
resolve_loop-first s configured (x ∷ ids) p = elim (Verdict-cases (judge s x)) [
  | inl (reason, requested, e) ↦
      rw (e, resolve_loop)
        (extend x (reason, requested, e)
          (resolve_loop s configured ids (note_skip x reason requested p))
          (resolve_loop-first s configured ids (note_skip x reason requested p)))
  | inr (r, t, why, e) ↦
      rw (e, resolve_loop)
        (inl (record {
          earlier = [];
          later = ids;
          position = refl;
          all_skipped = tt;
          realisable = judge-IsRealisable s x e;
        }))
]
  where
    extend :
        (y : String)
        → IsSkipped s y
        → (a : ConsumingAuthority) → IsFirstRealisable s ids a ⊎ IsNobody s ids a
        → IsFirstRealisable s (y ∷ ids) a ⊎ IsNobody s (y ∷ ids) a
    extend y sk a (inl f) = inl (record {
      earlier = y ∷ f.earlier;
      later = f.later;
      position = ap (λ l. y ∷ l) f.position;
      all_skipped = (sk, f.all_skipped);
      realisable = f.realisable;
    })
    extend y sk a (inr n) = inr (record {
      no_device = n.no_device;
      no_target = n.no_target;
      none_realisable = (sk, n.none_realisable);
    })

-- Under NET_ZERO with AUTOMATIC or HORIZON_BY_HAEO control the authority falls to the first
-- candidate of the fallback order that is not skipped: a known device that regulates and absorbs,
-- is not latched off unless it is forced, is not held back for a producer, and is given a positive
-- target of at most its maximum. If all are skipped there is no device and the target is 0.
pub resolve-first :
    (profiles : Profiles) (s : Situation) (ids : List String)
    → is_net_zero profiles.goal ≡ true
    → (is_automatic profiles.control || is_horizon_by_haeo profiles.control) ≡ true
    → IsFirstRealisable s ids (resolve_primary_consuming_authority profiles s ids)
      ⊎ IsNobody s ids (resolve_primary_consuming_authority profiles s ids)
unfolding resolve_primary_consuming_authority
resolve-first profiles s ids g c =
    rw (g, c) (resolve_loop-first s (is_configured ids) ids no_progress)

-- With a plan, the fallback order names no device twice, and holds exactly the devices with a name
-- that are configured or that the plan, if it is active, names.
pub fallback_order_lem :
    (configured : List String) (plan : HaeoNetZeroPlan) (y : String)
    → let order = ordered_primary_consuming_device_ids configured (some plan) in
      IsDistinct order
      × (has_id y order ≡ (
          not (same y "")
          && ((plan.active && same y plan.primary_consuming_device_id) || has_id y configured)))
unfolding ordered_primary_consuming_device_ids has_id
fallback_order_lem configured plan y =
    let planned = plan.primary_consuming_device_id in
    elim (Bool-cases (plan.active && not (same planned ""))) [
      | inl first ↦ rw first (
        append_new_ids-IsDistinct (planned ∷ []) configured (refl, tt),
        rw (append_new_ids-has_id y (planned ∷ []) configured)
            (ground (arith, same_iff planned "", same_iff y "", same_iff y planned)),
      )
      | inr none_first ↦ rw none_first (
        append_new_ids-IsDistinct [] configured tt,
        rw (append_new_ids-has_id y [] configured)
            (ground (arith, same_iff planned "", same_iff y "", same_iff y planned)),
      )
    ]
