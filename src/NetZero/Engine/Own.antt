-- ===== src/NetZero/Engine/Own.antt =====
-- Lemmas on NetZero/Engine: the policy of a device that has no share of the production.
use ha_ems.Prelude.{none, some, Memᴰ, ◌≡◌, refl}
use ha_ems.Domain.Models.{Device, DeviceKind, DevicePolicy}
use ha_ems.NetZero.Engine.Input.{EngineInput}
use ha_ems.NetZero.Engine.Outputs.{
  policy_sources, policy_device_of, compute_net_zero_engine_outputs,
}
use ha_ems.NetZero.Engine.Targets.{producer_target_of}
use ha_ems.NetZero.Engine.Build.{
  PolicySources, kind_policy, device_policy, build_device_policies, BatteryPolicy, ev_device_policy,
  battery_device_policy,
}
use ha_ems.NetZero.Engine.Complete.{build_device_policies_member, sanitized_policies_member}
use ha_ems.NetZero.Enforcement.{enforce_policy, enforce_device_policy_capabilities}
use ha_ems.NetZero.Ev.{EvPolicy}

device_policy_kind :
    (s : PolicySources) (d : Device) {p : DevicePolicy}
    → s.producer_target_of d.device_id ≡ none
    → kind_policy s d d.kind ≡ some p
    → device_policy s d ≡ some p
unfolding device_policy
device_policy_kind s d e made = rw (e, device_policy) made

-- The policy of a configured device without a share of the production, as it leaves the tick.
pub own_policy_member :
    (i : EngineInput) (d : Device) {p : DevicePolicy}
    → Memᴰ d i.cfg.devices
    → producer_target_of i d.device_id ≡ none
    → kind_policy (policy_sources i) d d.kind ≡ some p
    → Memᴰ
        (enforce_policy (policy_device_of i p.device_id) p)
        (compute_net_zero_engine_outputs i).device_policies
unfolding compute_net_zero_engine_outputs enforce_device_policy_capabilities policy_sources
own_policy_member i d {p = p} m alone made =
    sanitized_policies_member (policy_device_of i) p
      (build_device_policies (policy_sources i) i.cfg.devices)
      (build_device_policies_member (policy_sources i) d p i.cfg.devices
        (device_policy_kind (policy_sources i) d alone made) m)

pub kind_policy_ev :
    (s : PolicySources) (d : Device) (kind : DeviceKind) {p : EvPolicy}
    → kind ≡ DeviceKind.ev_charger
    → s.ev_policy_of d.device_id ≡ some p
    → kind_policy s d kind ≡ some (ev_device_policy d.device_id p)
kind_policy_ev s d kind e made = rw (e, made) refl

pub kind_policy_battery :
    (s : PolicySources) (d : Device) (kind : DeviceKind) {p : BatteryPolicy}
    → kind ≡ DeviceKind.battery
    → s.battery_policy_of d.device_id ≡ some p
    → kind_policy s d kind ≡ some (battery_device_policy d.device_id p)
kind_policy_battery s d kind e made = rw (e, made) refl
