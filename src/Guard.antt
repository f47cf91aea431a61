-- ===== src/Guard.antt =====
-- modules/ems_core/guard/evaluator.py: the guard profile from the batteries' health.
pub mod Health
pub mod Watched
pub mod Normal
pub mod Transitions
use ha_ems.Prelude.{
  ℕ, ◌+◌, Bool, true, false, ◌&&◌, ◌||◌, not, Option, none, some, List, [], ◌∷◌, ◌++◌, String, same,
  has_id, ltb, leb, if◌then◌else◌, ℤ, pos, ltb_ℤ, leb_ℤ, ◌+ℤ◌,
}
use ha_ems.Domain.Profiles.{GuardProfile, is_strict_limits, is_battery_protect, is_degraded}
use ha_ems.Domain.Models.{
  CoreConfig, Device, DeviceKind, BatteryGuardConfig, device_by_id, is_battery,
}

-- One entry of `battery_states`; a missing value is `none`, and a missing heartbeat age is
-- infinite.
pub record BatteryState : Type 0 where
  pub heartbeat_age_s : Option ℕ
  pub soc : Option ℤ
  pub min_cell_voltage_v : Option ℤ

pub data Reason : Type 0 where
  no_guarded_battery strict_limits_user_selected data_stale protect_active protect_persists
        protect_recovered degraded_recovered guard_unchanged :
      Reason

pub record GuardDecision : Type 0 where
  pub guard : GuardProfile
  pub soc_stale : Bool
  pub transport_ok : Bool
  pub soc_valid : Bool
  pub reason : Reason

unfoldable pub is_battery_id : CoreConfig → String → Bool
is_battery_id cfg device_id = elim (device_by_id cfg device_id) [
  | none ↦ false
  | some d ↦ is_battery d.kind
]

-- The loop over the primary candidates.
unfoldable pub primary_batteries : CoreConfig → List String → List String → List String
primary_batteries cfg ids [] = ids
primary_batteries cfg ids (x ∷ xs) =
    primary_batteries cfg
      (if not (same x "") && is_battery_id cfg x && not (has_id x ids) then ids ++ x ∷ [] else ids)
      xs

-- The loop over all devices.
unfoldable pub producing_batteries : List String → List Device → List String
producing_batteries ids [] = ids
producing_batteries ids (d ∷ ds) =
    producing_batteries
      (if is_battery d.kind
          && d.capabilities.supports_producing_regulation
          && not (has_id d.device_id ids)
        then ids ++ d.device_id ∷ []
        else ids)
      ds

unfoldable pub guard_battery_device_ids : CoreConfig → List String
unfolding primary_batteries producing_batteries is_battery_id
guard_battery_device_ids cfg =
    producing_batteries (primary_batteries cfg [] cfg.global_config.primary_consuming_device_ids)
      cfg.devices

-- A guarded battery: its state and its thresholds.
pub record GuardedBattery : Type 0 where
  pub device_id : String
  pub state : BatteryState
  pub thresholds : BatteryGuardConfig

abbrev pub default_thresholds : BatteryGuardConfig
default_thresholds = record {
  protect_soc = pos 2000;
  protect_soc_recovery_margin = pos 1000;
  protect_min_cell_voltage_v = pos 3030;
  protect_min_absorb_w = pos 0;
}

unfoldable pub thresholds_of : CoreConfig → String → BatteryGuardConfig
thresholds_of cfg device_id = elim (device_by_id cfg device_id) [
  | none ↦ default_thresholds
  | some d ↦ d.guard
]

abbrev pub unknown_state : BatteryState
unknown_state = record { heartbeat_age_s = none; soc = none; min_cell_voltage_v = none }

unfoldable pub state_of : String → List (String × BatteryState) → BatteryState
state_of device_id [] = unknown_state
state_of device_id ((key, state) ∷ states) =
    if same key device_id then state else state_of device_id states

unfoldable pub guarded_batteries :
    CoreConfig → List (String × BatteryState) → List String → List GuardedBattery
unfolding thresholds_of state_of
guarded_batteries cfg states [] = []
guarded_batteries cfg states (x ∷ xs) =
    record { device_id = x; state = state_of x states; thresholds = thresholds_of cfg x }
    ∷ guarded_batteries cfg states xs

abbrev pub at_most : Option ℕ → ℕ → Bool
at_most none limit = false
at_most (some age) limit = leb age limit

abbrev pub within : Option ℤ → ℤ → ℤ → Bool
within none lowest highest = false
within (some x) lowest highest = leb_ℤ lowest x && leb_ℤ x highest

abbrev pub below : Option ℤ → ℤ → Bool
below none limit = false
below (some x) limit = ltb_ℤ x limit

abbrev pub reaches : Option ℤ → ℤ → Bool
reaches none limit = false
reaches (some x) limit = leb_ℤ limit x

abbrev pub is_positive : Option ℤ → Bool
is_positive none = false
is_positive (some x) = ltb_ℤ (pos 0) x

abbrev pub is_transport_ok : ℕ → GuardedBattery → Bool
is_transport_ok timeout_s b = at_most b.state.heartbeat_age_s timeout_s

-- `0 <= soc <= 100` in thousandths of a percent.
abbrev pub is_soc_valid : GuardedBattery → Bool
is_soc_valid b = within b.state.soc (pos 0) (pos 100000)

abbrev pub is_soc_low : GuardedBattery → Bool
is_soc_low b = below b.state.soc b.thresholds.protect_soc

abbrev pub is_min_cell_low : GuardedBattery → Bool
is_min_cell_low b =
    is_positive b.state.min_cell_voltage_v
    && below b.state.min_cell_voltage_v b.thresholds.protect_min_cell_voltage_v

abbrev pub is_recovered : GuardedBattery → Bool
is_recovered b =
    reaches b.state.soc (b.thresholds.protect_soc +ℤ b.thresholds.protect_soc_recovery_margin)
    && is_positive b.state.min_cell_voltage_v
    && reaches b.state.min_cell_voltage_v b.thresholds.protect_min_cell_voltage_v

unfoldable pub all_batteries : (GuardedBattery → Bool) → List GuardedBattery → Bool
all_batteries p [] = true
all_batteries p (b ∷ bs) = p b && all_batteries p bs

abbrev pub is_low : GuardedBattery → Bool
is_low b = is_soc_low b || is_min_cell_low b

unfoldable pub any_battery : (GuardedBattery → Bool) → List GuardedBattery → Bool
any_battery p [] = false
any_battery p (b ∷ bs) = p b || any_battery p bs

-- What follows once the data is known to be fresh.
unfoldable pub fresh_decision : GuardProfile → List GuardedBattery → GuardProfile × Reason
fresh_decision current bs =
    if any_battery is_low bs
    then (GuardProfile.battery_protect, protect_active)
    else if is_battery_protect current
    then (if all_batteries is_recovered bs
        then (GuardProfile.normal_limits, protect_recovered)
        else (GuardProfile.battery_protect, protect_persists))
    else if is_degraded current
    then (GuardProfile.normal_limits, degraded_recovered)
    else (current, guard_unchanged)

unfoldable pub decide : GuardProfile → ℕ → List GuardedBattery → GuardDecision
decide current timeout_s [] = record {
  guard = current;
  soc_stale = false;
  transport_ok = true;
  soc_valid = true;
  reason = no_guarded_battery;
}
decide current timeout_s (b ∷ bs) =
    let transport_ok = all_batteries (is_transport_ok timeout_s) (b ∷ bs) in
    let soc_valid = all_batteries is_soc_valid (b ∷ bs) in
    let soc_stale = not transport_ok || not soc_valid in
    let (guard, reason) =
      if is_strict_limits current
      then (current, strict_limits_user_selected)
      else if soc_stale
      then (GuardProfile.degraded, data_stale)
      else fresh_decision current (b ∷ bs) in
    record {
      guard = guard;
      soc_stale = soc_stale;
      transport_ok = transport_ok;
      soc_valid = soc_valid;
      reason = reason;
    }

unfoldable pub evaluate_guard :
    GuardProfile → List (String × BatteryState) → CoreConfig → GuardDecision
unfolding guarded_batteries guard_battery_device_ids
evaluate_guard current states cfg =
    decide current cfg.global_config.battery_heartbeat_timeout_s
      (guarded_batteries cfg states (guard_battery_device_ids cfg))
