-- ===== src/NetZero/Enforcement/Enforced.antt =====
-- Theorems on NetZero/Enforcement: the policies that leave _enforce_device_policy_capabilities.
use ha_ems.Prelude.{List, [], ◌∷◌, String, pos, neg, pos_part, ◌≤ℤ◌, ◌≡◌, All, arith}
use ha_ems.Domain.Models.{DevicePolicy}
use ha_ems.Domain.Capabilities.{clamp_target_w_for_capabilities}
use ha_ems.Domain.Capabilities.Bounds.{clamp_bounds, clamp_idem}
use ha_ems.NetZero.Enforcement.{
  PolicyDevice, enforce_policy, sanitized_policies, enforce_device_policy_capabilities,
}

-- A policy that its device can follow.
pub record IsFollowable (device_of : String → PolicyDevice) (p : DevicePolicy) : Type 0 where
  pub at_most : p.target_w ≤ℤ pos (pos_part (device_of p.device_id).capabilities.max_absorb_w)
  pub at_least :
      neg (pos (pos_part (device_of p.device_id).capabilities.max_produce_w)) ≤ℤ p.target_w
  pub unchanged_by_clamp :
      clamp_target_w_for_capabilities (device_of p.device_id).capabilities p.target_w ≡ p.target_w

enforce_policy-target :
    (d : PolicyDevice) (p : DevicePolicy)
    → ((enforce_policy d p).target_w ≡ clamp_target_w_for_capabilities d.capabilities p.target_w)
      × ((enforce_policy d p).device_id ≡ p.device_id)
unfolding enforce_policy
enforce_policy-target d p = ground arith

enforce_policy-IsFollowable :
    (device_of : String → PolicyDevice) (p : DevicePolicy)
    → IsFollowable device_of (enforce_policy (device_of p.device_id) p)
enforce_policy-IsFollowable device_of p =
    let d = device_of p.device_id in
    let (target, id) = enforce_policy-target d p in
    let (most, least, absorbs, produces) = clamp_bounds d.capabilities p.target_w in
    record {
      at_most = rw (target, id) most;
      at_least = rw (target, id) least;
      unchanged_by_clamp = rw (target, id) (clamp_idem d.capabilities p.target_w);
    }

-- Every policy that leaves the engine has a target within its device's limits, which the clamp in
-- front of an actuator does not change.
pub sanitized-IsFollowable :
    (device_of : String → PolicyDevice) (policies : List DevicePolicy)
    → All (IsFollowable device_of) (enforce_device_policy_capabilities device_of policies).0
unfolding enforce_device_policy_capabilities sanitized_policies
sanitized-IsFollowable device_of [] = tt
sanitized-IsFollowable device_of (p ∷ ps) =
    (enforce_policy-IsFollowable device_of p, sanitized-IsFollowable device_of ps)
