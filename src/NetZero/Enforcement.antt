-- ===== src/NetZero/Enforcement.antt =====
-- modules/ems_core/net_zero/engine.py: _enforce_device_policy_capabilities, the last step on the
-- policies of a tick. What a device can do is looked up by an argument.
pub mod Enforced
use ha_ems.Prelude.{
  ℕ, ◌+◌, Bool, true, false, ◌&&◌, ◌||◌, not, Option, none, some, List, [], ◌∷◌, String, has_id,
  ltb, ℤ, pos, if◌then◌else◌,
}
use ha_ems.Domain.Models.{
  Capabilities, CoreConfig, Device, DeviceKind, DevicePolicy, PolicyMode, PolicyReason, is_battery,
  is_ev_charger,
}
use ha_ems.Domain.Capabilities.{clamp_target_w_for_capabilities, capability_block_reason}

-- The device of a policy: its kind and its capabilities.
pub record PolicyDevice : Type 0 where
  pub kind : DeviceKind
  pub capabilities : Capabilities

abbrev pub blocked_mode : DeviceKind → PolicyMode
blocked_mode kind =
    if is_battery kind
    then PolicyMode.power
    else if is_ev_charger kind
    then PolicyMode.restore_min
    else PolicyMode.relay

-- One iteration of the loop: the policy that replaces `policy`.
unfoldable pub enforce_policy : PolicyDevice → DevicePolicy → DevicePolicy
enforce_policy d policy =
    let target = clamp_target_w_for_capabilities d.capabilities policy.target_w in
    elim (capability_block_reason d.capabilities policy.target_w) [
      | none ↦ record policy { target_w = target }
      | some reason ↦ record policy {
        target_w = target;
        enabled = is_battery d.kind;
        mode = blocked_mode d.kind;
        reason = reason;
      }
    ]

-- The policies, and the identifiers and reasons of `blocked`.
unfoldable pub sanitized_policies : (String → PolicyDevice) → List DevicePolicy → List DevicePolicy
sanitized_policies device_of [] = []
sanitized_policies device_of (p ∷ ps) =
    enforce_policy (device_of p.device_id) p ∷ sanitized_policies device_of ps

unfoldable pub blocked_policies :
    (String → PolicyDevice) → List DevicePolicy → List (String × PolicyReason)
blocked_policies device_of [] = []
blocked_policies device_of (p ∷ ps) =
    let rest = blocked_policies device_of ps in
    elim (capability_block_reason (device_of p.device_id).capabilities p.target_w) [
      | none ↦ rest
      | some reason ↦ (p.device_id, reason) ∷ rest
    ]

unfoldable pub enforce_device_policy_capabilities :
    (String → PolicyDevice) → List DevicePolicy → List DevicePolicy × List (String × PolicyReason)
unfolding sanitized_policies blocked_policies
enforce_device_policy_capabilities device_of policies =
    (sanitized_policies device_of policies, blocked_policies device_of policies)
