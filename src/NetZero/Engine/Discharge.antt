-- ===== src/NetZero/Engine/Discharge.antt =====
-- Theorems on NetZero/Engine: no battery is discharged but as a producer.
use ha_ems.Prelude.{
  true, false, none, some, Memᴰ, String, ℤ, pos, ◌≤ℤ◌, ◌≡◌, refl, round_to, min_ℤ, arith,
}
use ha_ems.Domain.Profiles.{is_net_zero, is_normal_limits, is_manual, is_manual_safe}
use ha_ems.Domain.Models.{Device, DeviceKind, DevicePolicy, device_by_id, Capabilities}
use ha_ems.NetZero.Engine.Input.{EngineInput}
use ha_ems.NetZero.Engine.Outputs.{
  policy_sources, policy_device_of, compute_net_zero_engine_outputs,
}
use ha_ems.NetZero.Engine.Targets.{
  producer_target_of, battery_policy_of, battery_policy_from, only_battery, battery_input,
}
use ha_ems.NetZero.Engine.Build.{BatteryPolicy, battery_device_policy}
use ha_ems.NetZero.Enforcement.{PolicyDevice, enforce_policy}
use ha_ems.Domain.Capabilities.{clamp_target_w_for_capabilities}
use ha_ems.NetZero.Battery.{battery_target_and_authority}
use ha_ems.NetZero.Battery.Guarded.{net_zero_never_discharges, round_to_nonneg}
use ha_ems.NetZero.Engine.Own.{own_policy_member, kind_policy_battery}

only_battery_lem :
    (kind : DeviceKind) (p : BatteryPolicy)
    → kind ≡ DeviceKind.battery
    → only_battery kind p ≡ some p
only_battery_lem kind p e = rw e refl

pub battery_policy_of_own :
    (i : EngineInput) (d : Device)
    → device_by_id i.cfg d.device_id ≡ some d
    → d.kind ≡ DeviceKind.battery
    → battery_policy_of i d.device_id
      ≡ some (battery_policy_from (battery_target_and_authority (battery_input i d)))
unfolding battery_policy_of
battery_policy_of_own i d found kind =
    rw (found, battery_policy_of)
      (only_battery_lem d.kind
        (battery_policy_from (battery_target_and_authority (battery_input i d))) kind)

clamp_nonneg :
    (c : Capabilities) (t : ℤ) → pos 0 ≤ℤ t → pos 0 ≤ℤ clamp_target_w_for_capabilities c t
unfolding clamp_target_w_for_capabilities min_ℤ
clamp_nonneg c t h = ground (arith, round_to_nonneg t h)

enforce_nonneg :
    (d : PolicyDevice) (p : DevicePolicy)
    → pos 0 ≤ℤ p.target_w
    → (pos 0 ≤ℤ (enforce_policy d p).target_w) × ((enforce_policy d p).device_id ≡ p.device_id)
unfolding enforce_policy
enforce_nonneg d p h = ground (arith, clamp_nonneg d.capabilities p.target_w h)

-- A policy of a device that does not discharge it.
pub record IsNoDischarge (device_id : String) (p : DevicePolicy) : Type 0 where
  pub identified : p.device_id ≡ device_id
  pub not_negative : pos 0 ≤ℤ p.target_w

-- Under NET_ZERO, NORMAL_LIMITS and neither manual control, a configured battery with an identifier
-- of its own, a maximum absorbing power that is not negative, and no share of the production, leaves
-- the tick with a policy that does not discharge it.
pub battery_discharges_as_producer :
    (i : EngineInput) (d : Device)
    → Memᴰ d i.cfg.devices
    → device_by_id i.cfg d.device_id ≡ some d
    → d.kind ≡ DeviceKind.battery
    → is_manual i.profiles.control ≡ false
    → is_manual_safe i.profiles.control ≡ false
    → is_net_zero i.profiles.goal ≡ true
    → is_normal_limits i.profiles.guard ≡ true
    → pos 0 ≤ℤ d.capabilities.max_absorb_w
    → producer_target_of i d.device_id ≡ none
    → (p : DevicePolicy) × Memᴰ p (compute_net_zero_engine_outputs i).device_policies
      × IsNoDischarge d.device_id p
unfolding battery_input policy_sources
battery_discharges_as_producer i d m found kind manual safe goal guard absorbs alone =
    let t = battery_target_and_authority (battery_input i d) in
    let p = battery_device_policy d.device_id (battery_policy_from t) in
    let positive = net_zero_never_discharges (battery_input i d) manual safe goal guard absorbs in
    let (kept, id) =
      enforce_nonneg (policy_device_of i d.device_id) p
        (round_to_nonneg (round_to 1000 t.target_w) (round_to_nonneg t.target_w positive)) in
    (
      enforce_policy (policy_device_of i d.device_id) p,
      own_policy_member i d {p = p} m alone (
          kind_policy_battery (policy_sources i) d d.kind kind
            (battery_policy_of_own i d found kind)),
      record { identified = id; not_negative = kept },
    )
