-- ===== src/NetZero/Engine/Shares.antt =====
-- Lemmas on NetZero/Engine: the producers' shares under the guard.
use ha_ems.Prelude.{
  ℕ, ◌≤◌, true, none, some, List, [], ◌∷◌, All, String, ℤ, pos, pos_part, ◌≡◌, arith, Option-cases,
  inl, inr,
}
use ha_ems.Domain.Profiles.{is_battery_protect, is_strict_limits}
use ha_ems.Domain.Models.{DeviceControlContext}
use ha_ems.NetZero.Producer.{Share, producer_transient_target_w}
use ha_ems.NetZero.Producer.Capped.{
  IsCapped, allocation-IsCapped, strict_ceiling, protected_ceiling,
}
use ha_ems.NetZero.Engine.Devices.{find_context}
use ha_ems.NetZero.Engine.Input.{EngineInput, producers}
use ha_ems.NetZero.Engine.Targets.{
  allocated_w_of, producer_allocation, producer_target_of, producer_request_w,
}

allocated_w_of_capped :
    (limit : ℕ) (shares : List Share) (device_id : String)
    → All (IsCapped limit) shares
    → allocated_w_of shares device_id ≤ limit
unfolding allocated_w_of
allocated_w_of_capped limit [] device_id h = omega arith
allocated_w_of_capped limit (s ∷ ss) device_id (h, hs) =
    ground (arith, allocated_w_of_capped limit ss device_id hs)

-- No producer is given a share under BATTERY_PROTECT.
pub protected_no_share :
    (i : EngineInput) (device_id : String)
    → is_battery_protect i.profiles.guard ≡ true
    → producer_target_of i device_id ≡ none
unfolding producer_target_of producer_allocation
protected_no_share i device_id protect =
    let capped = allocated_w_of_capped 0 (producer_allocation i).shares device_id (
      allocation-IsCapped 0 i.profiles i.cfg.global_config
        (λ c. protected_ceiling i.profiles i.cfg.global_config c protect) (producers i)
        (pos (producer_request_w i))) in
    ground (arith, capped)

pub allocated_strict :
    (i : EngineInput) (device_id : String)
    → is_strict_limits i.profiles.guard ≡ true
    → allocated_w_of (producer_allocation i).shares device_id
      ≤ pos_part i.cfg.global_config.strict_limit_w
unfolding producer_allocation
allocated_strict i device_id strict =
    allocated_w_of_capped (pos_part i.cfg.global_config.strict_limit_w)
      (producer_allocation i).shares device_id
      (allocation-IsCapped (pos_part i.cfg.global_config.strict_limit_w) i.profiles
        i.cfg.global_config (λ c. strict_ceiling i.profiles i.cfg.global_config c strict)
        (producers i) (pos (producer_request_w i)))

-- A producer's target is a ramp step from the control context of a producer.
pub producer_target_of-transient :
    (i : EngineInput) (device_id : String) {t : ℤ}
    → producer_target_of i device_id ≡ some t
    → (c : DeviceControlContext) × (find_context (producers i) device_id ≡ some c)
      × (t
          ≡ producer_transient_target_w i.cfg.global_config c
              (allocated_w_of (producer_allocation i).shares device_id))
unfolding producer_target_of
producer_target_of-transient i device_id {t} e =
    elim (Option-cases (find_context (producers i) device_id)) [
      | inl nothing ↦ absurd (ground arith)
      | inr (c, found) ↦ (c, found, ground arith)
    ]
