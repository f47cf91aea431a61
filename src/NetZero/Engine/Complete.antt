-- ===== src/NetZero/Engine/Complete.antt =====
-- Theorems on NetZero/Engine: the policies that leave a tick.
use ha_ems.Prelude.{
  Bool, true, false, some, List, [], ◌∷◌, map, Memᴰ, All, String, ℤ, ◌≡◌, refl, sym, ap, ◌∙◌, arith,
  Option-cases, inl, inr,
}
use ha_ems.Domain.Models.{Device, DeviceKind, DevicePolicy}
use ha_ems.NetZero.Enforcement.{
  PolicyDevice, enforce_policy, sanitized_policies, enforce_device_policy_capabilities,
}
use ha_ems.NetZero.Enforcement.Enforced.{IsFollowable, sanitized-IsFollowable}
use ha_ems.NetZero.Engine.Build.{
  PolicySources, device_policy, kind_policy, producer_policy, build_device_policies,
}
use ha_ems.NetZero.Engine.Input.{EngineInput}
use ha_ems.NetZero.Engine.Outputs.{
  policy_sources, policy_device_of, compute_net_zero_engine_outputs,
}
use ha_ems.NetZero.Engine.Targets.{producer_target_of}

abbrev pub is_recognized : DeviceKind → Bool
is_recognized DeviceKind.unrecognized = false
is_recognized _ = true

abbrev pub policy_id : DevicePolicy → String
policy_id p = p.device_id

abbrev pub id_of : Device → String
id_of d = d.device_id

pub kind_policy-some :
    (s : PolicySources) (d : Device) (kind : DeviceKind)
    → is_recognized kind ≡ true
    → (p : DevicePolicy) × (kind_policy s d kind ≡ some p) × (p.device_id ≡ d.device_id)
kind_policy-some s d DeviceKind.battery h = (_, refl, refl)
kind_policy-some s d DeviceKind.ev_charger h = (_, refl, refl)
kind_policy-some s d DeviceKind.relay h = (_, refl, refl)
kind_policy-some s d DeviceKind.unrecognized h = absurd (cc h)

kind_policy-id :
    (s : PolicySources) (d : Device) (kind : DeviceKind) {p : DevicePolicy}
    → kind_policy s d kind ≡ some p
    → p.device_id ≡ d.device_id
kind_policy-id s d DeviceKind.battery made = ground arith
kind_policy-id s d DeviceKind.ev_charger made = ground arith
kind_policy-id s d DeviceKind.relay made = ground arith
kind_policy-id s d DeviceKind.unrecognized made = absurd (cc made)

device_policy-some :
    (s : PolicySources) (d : Device)
    → is_recognized d.kind ≡ true
    → (p : DevicePolicy) × (device_policy s d ≡ some p) × (p.device_id ≡ d.device_id)
unfolding device_policy
device_policy-some s d h = elim (Option-cases (s.producer_target_of d.device_id)) [
  | inl e ↦ let (p, made, id) = kind_policy-some s d d.kind h in (p, rw (e, device_policy) made, id)
  | inr (t, e) ↦ (producer_policy d.device_id t, rw (e, device_policy) refl, refl)
]

build_device_policies-ids :
    (s : PolicySources) (ds : List Device)
    → All (λ d. is_recognized d.kind ≡ true) ds
    → map policy_id (build_device_policies s ds) ≡ map id_of ds
unfolding build_device_policies
build_device_policies-ids s [] h = refl
build_device_policies-ids s (d ∷ ds) (h, hs) =
    let (p, made, id) = device_policy-some s d h in
    rw (made, build_device_policies, build_device_policies-ids s ds hs)
      (ap (λ x. x ∷ map id_of ds) id)

enforce_policy-id :
    (d : PolicyDevice) (p : DevicePolicy) → (enforce_policy d p).device_id ≡ p.device_id
unfolding enforce_policy
enforce_policy-id d p = ground arith

sanitized_policies-ids :
    (device_of : String → PolicyDevice) (ps : List DevicePolicy)
    → map policy_id (sanitized_policies device_of ps) ≡ map policy_id ps
unfolding sanitized_policies
sanitized_policies-ids device_of [] = refl
sanitized_policies-ids device_of (p ∷ ps) =
    rw (enforce_policy-id (device_of p.device_id) p, sanitized_policies-ids device_of ps)

-- Where every configured device is a battery, an EV charger or a relay, a tick gives exactly one
-- policy to each configured device, in their order.
pub compute_policies-ids :
    (i : EngineInput)
    → All (λ d. is_recognized d.kind ≡ true) i.cfg.devices
    → map policy_id (compute_net_zero_engine_outputs i).device_policies ≡ map id_of i.cfg.devices
unfolding compute_net_zero_engine_outputs enforce_device_policy_capabilities
compute_policies-ids i h =
    sanitized_policies-ids (policy_device_of i)
      (build_device_policies (policy_sources i) i.cfg.devices)
    ∙ build_device_policies-ids (policy_sources i) i.cfg.devices h

-- Every policy that leaves a tick has a target within the limits of its configured device, which the
-- clamp in front of an actuator does not change.
pub compute_policies-IsFollowable :
    (i : EngineInput)
    → All (IsFollowable (policy_device_of i)) (compute_net_zero_engine_outputs i).device_policies
unfolding compute_net_zero_engine_outputs
compute_policies-IsFollowable i =
    sanitized-IsFollowable (policy_device_of i)
      (build_device_policies (policy_sources i) i.cfg.devices)

pub build_device_policies_member :
    (s : PolicySources) (d : Device) (p : DevicePolicy) (ds : List Device)
    → device_policy s d ≡ some p
    → Memᴰ d ds
    → Memᴰ p (build_device_policies s ds)
unfolding build_device_policies
build_device_policies_member s d p [] made m = elim m [ ]
build_device_policies_member s d p (e ∷ ds) made (Memᴰ.head q) =
    let found : device_policy s e ≡ some p = rw (← q) made in
    rw (found, build_device_policies) (Memᴰ.head refl)
build_device_policies_member s d p (e ∷ ds) made (Memᴰ.tail m) =
    let rest = build_device_policies_member s d p ds made m in
    elim (Option-cases (device_policy s e)) [
      | inl nothing ↦ rw (nothing, build_device_policies) rest
      | inr (q, found) ↦ rw (found, build_device_policies) (Memᴰ.tail rest)
    ]

pub sanitized_policies_member :
    (device_of : String → PolicyDevice) (p : DevicePolicy) (ps : List DevicePolicy)
    → Memᴰ p ps
    → Memᴰ (enforce_policy (device_of p.device_id) p) (sanitized_policies device_of ps)
unfolding sanitized_policies
sanitized_policies_member device_of p [] m = elim m [ ]
sanitized_policies_member device_of p (q ∷ ps) (Memᴰ.head e) =
    Memᴰ.head (ap (λ x. enforce_policy (device_of x.device_id) x) e)
sanitized_policies_member device_of p (q ∷ ps) (Memᴰ.tail m) =
    Memᴰ.tail (sanitized_policies_member device_of p ps m)

device_policy_producer :
    (s : PolicySources) (d : Device) {t : ℤ}
    → s.producer_target_of d.device_id ≡ some t
    → device_policy s d ≡ some (producer_policy d.device_id t)
unfolding device_policy
device_policy_producer s d e = rw (e, device_policy) refl

device_policy-id :
    (s : PolicySources) (d : Device) {p : DevicePolicy}
    → device_policy s d ≡ some p
    → p.device_id ≡ d.device_id
unfolding device_policy
device_policy-id s d {p} made = elim (Option-cases (s.producer_target_of d.device_id)) [
  | inr (t, e) ↦ ground arith
  | inl e ↦ kind_policy-id s d d.kind (rw (e, device_policy) at made)
]

-- A producer's share decides the policy of every device of its identifier.
abbrev IsProducerPolicy : String → ℤ → DevicePolicy → Type 0
IsProducerPolicy device_id t p = p.device_id ≡ device_id → p ≡ producer_policy device_id t

device_policy-IsProducerPolicy :
    (s : PolicySources) (device_id : String) {t : ℤ} (d : Device) {p : DevicePolicy}
    → s.producer_target_of device_id ≡ some t
    → device_policy s d ≡ some p
    → IsProducerPolicy device_id t p
device_policy-IsProducerPolicy s device_id {t} d {p} share made named =
    let own = sym (device_policy-id s d made) ∙ named in
    let given = device_policy_producer s d (ap s.producer_target_of own ∙ share) in
    let same_policy : p ≡ producer_policy d.device_id t = cc in
    same_policy ∙ ap (λ x. producer_policy x t) own

build_device_policies-IsProducerPolicy :
    (s : PolicySources) (device_id : String) {t : ℤ} (ds : List Device)
    → s.producer_target_of device_id ≡ some t
    → All (IsProducerPolicy device_id t) (build_device_policies s ds)
unfolding build_device_policies
build_device_policies-IsProducerPolicy s device_id [] share = tt
build_device_policies-IsProducerPolicy s device_id (d ∷ ds) share =
    let rest = build_device_policies-IsProducerPolicy s device_id ds share in
    elim (Option-cases (device_policy s d)) [
      | inl nothing ↦ rw (nothing, build_device_policies) rest
      | inr (p, made) ↦
          rw (made, build_device_policies)
            (device_policy-IsProducerPolicy s device_id d share made, rest)
    ]

sanitized_policies-Decided :
    (device_of : String → PolicyDevice) (device_id : String) (t : ℤ) (ps : List DevicePolicy)
    → All (IsProducerPolicy device_id t) ps
    → All
        (λ p.
          p.device_id ≡ device_id
          → p ≡ enforce_policy (device_of device_id) (producer_policy device_id t))
        (sanitized_policies device_of ps)
unfolding sanitized_policies
sanitized_policies-Decided device_of device_id t [] hs = tt
sanitized_policies-Decided device_of device_id t (p ∷ ps) (h, hs) = (
  λ named.
      ap (λ q. enforce_policy (device_of q.device_id) q)
        (h (sym (enforce_policy-id (device_of p.device_id) p) ∙ named)),
  sanitized_policies-Decided device_of device_id t ps hs,
)

-- A configured device that is given a share of the production gets that share's target, within its
-- capabilities, whatever its own policy would be: the tick has that policy, and every policy of the
-- tick with the device's identifier is that policy.
pub compute_policies_producer :
    (i : EngineInput) (d : Device) {t : ℤ}
    → Memᴰ d i.cfg.devices
    → producer_target_of i d.device_id ≡ some t
    → let decided =
        enforce_policy (policy_device_of i d.device_id) (producer_policy d.device_id t) in
      let policies = (compute_net_zero_engine_outputs i).device_policies in
      Memᴰ decided policies × All (λ p. p.device_id ≡ d.device_id → p ≡ decided) policies
unfolding compute_net_zero_engine_outputs enforce_device_policy_capabilities policy_sources
compute_policies_producer i d {t = t} m produces = (
  sanitized_policies_member (policy_device_of i) (producer_policy d.device_id t)
      (build_device_policies (policy_sources i) i.cfg.devices)
      (build_device_policies_member (policy_sources i) d (producer_policy d.device_id t)
        i.cfg.devices (device_policy_producer (policy_sources i) d produces) m),
  sanitized_policies-Decided (policy_device_of i) d.device_id t
      (build_device_policies (policy_sources i) i.cfg.devices)
      (build_device_policies-IsProducerPolicy (policy_sources i) d.device_id i.cfg.devices
        produces),
)
