-- ===== src/Guard/Health.antt =====
-- Theorems on Guard: what a battery needs before the guard decides NORMAL_LIMITS.
use ha_ems.Prelude.{
  ℕ, ◌≤◌, Bool, true, false, ◌&&◌, ◌||◌, not, some, ℤ, pos, ◌≤ℤ◌, ◌<ℤ◌, ◌+ℤ◌, ◌≡◌, inl, inr, refl,
  arith, Bool-cases, Option-cases,
}
use ha_ems.Domain.Profiles.{GuardProfile, is_battery_protect}
use ha_ems.Domain.Models.{BatteryGuardConfig}
use ha_ems.Guard.{
  BatteryState, GuardedBattery, is_transport_ok, is_soc_valid, is_soc_low, is_min_cell_low, is_low,
  is_recovered,
}

-- A battery whose data is fresh and which is above its protective thresholds; a cell voltage that is
-- missing or not positive does not count.
pub record IsHealthy (timeout_s : ℕ) (thresholds : BatteryGuardConfig) (state : BatteryState)
    : Type 0 where
  pub age : ℕ
  pub heartbeat : state.heartbeat_age_s ≡ some age
  pub fresh : age ≤ timeout_s
  pub soc : ℤ
  pub measured : state.soc ≡ some soc
  pub from_empty : pos 0 ≤ℤ soc
  pub to_full : soc ≤ℤ pos 100000
  pub charged : thresholds.protect_soc ≤ℤ soc
  pub cells :
      (v : ℤ)
      → state.min_cell_voltage_v ≡ some v
      → pos 0 <ℤ v
      → thresholds.protect_min_cell_voltage_v ≤ℤ v

-- A battery that may leave BATTERY_PROTECT: its charge is above the threshold by the margin, and its
-- cell voltage is known.
pub record HasRecovered (thresholds : BatteryGuardConfig) (state : BatteryState) : Type 0 where
  pub soc : ℤ
  pub measured : state.soc ≡ some soc
  pub recharged : (thresholds.protect_soc +ℤ thresholds.protect_soc_recovery_margin) ≤ℤ soc
  pub voltage : ℤ
  pub known : state.min_cell_voltage_v ≡ some voltage
  pub positive : pos 0 <ℤ voltage
  pub restored : thresholds.protect_min_cell_voltage_v ≤ℤ voltage

-- What the guard wants of a battery before it decides NORMAL_LIMITS.
abbrev pub IsSafe : GuardProfile → ℕ → BatteryGuardConfig → BatteryState → Type 0
IsSafe current timeout_s thresholds state =
    IsHealthy timeout_s thresholds state
    × (is_battery_protect current ≡ true → HasRecovered thresholds state)

abbrev pub passes : GuardProfile → ℕ → GuardedBattery → Bool
passes current timeout_s b =
    is_transport_ok timeout_s b
    && is_soc_valid b
    && not (is_low b)
    && (not (is_battery_protect current) || is_recovered b)

cells_above :
    (b : GuardedBattery)
    → is_min_cell_low b ≡ false
    → (v : ℤ) → b.state.min_cell_voltage_v ≡ some v
    → pos 0 <ℤ v
    → b.thresholds.protect_min_cell_voltage_v ≤ℤ v
cells_above b h v e p = ground arith

cells_not_low :
    (b : GuardedBattery)
    → ((v : ℤ)
        → b.state.min_cell_voltage_v ≡ some v
        → pos 0 <ℤ v
        → b.thresholds.protect_min_cell_voltage_v ≤ℤ v)
    → is_min_cell_low b ≡ false
cells_not_low b h = elim (Option-cases b.state.min_cell_voltage_v) [
  | inl unknown ↦ rw unknown refl
  | inr (v, known) ↦ elim (Bool-cases (is_min_cell_low b)) [
    | inr above ↦ above
    | inl low ↦ absurd (ground (arith, h v known (ground arith)))
  ]
]

passes-IsHealthy :
    (current : GuardProfile) (timeout_s : ℕ) (b : GuardedBattery)
    → passes current timeout_s b ≡ true
    → IsHealthy timeout_s b.thresholds b.state
passes-IsHealthy current timeout_s b h = elim (Option-cases b.state.heartbeat_age_s) [
  | inl unheard ↦ absurd (ground arith)
  | inr (age, heard) ↦ elim (Option-cases b.state.soc) [
    | inl unmeasured ↦ absurd (ground arith)
    | inr (soc, measured) ↦ record {
      age = age;
      heartbeat = heard;
      fresh = ground arith;
      soc = soc;
      measured = measured;
      from_empty = ground arith;
      to_full = ground arith;
      charged = ground arith;
      cells = cells_above b (ground arith);
    }
  ]
]

is_recovered-HasRecovered :
    (b : GuardedBattery) → is_recovered b ≡ true → HasRecovered b.thresholds b.state
is_recovered-HasRecovered b h = elim (Option-cases b.state.soc) [
  | inl unmeasured ↦ absurd (ground arith)
  | inr (soc, measured) ↦ elim (Option-cases b.state.min_cell_voltage_v) [
    | inl unknown ↦ absurd (ground arith)
    | inr (v, known) ↦ record {
      soc = soc;
      measured = measured;
      recharged = ground arith;
      voltage = v;
      known = known;
      positive = ground arith;
      restored = ground arith;
    }
  ]
]

HasRecovered-is_recovered :
    (b : GuardedBattery) → HasRecovered b.thresholds b.state → is_recovered b ≡ true
HasRecovered-is_recovered b h =
    ground (arith, h.measured, h.recharged, h.known, h.positive, h.restored)

pub passes-IsSafe :
    (current : GuardProfile) (timeout_s : ℕ) (b : GuardedBattery)
    → passes current timeout_s b ≡ true
    → IsSafe current timeout_s b.thresholds b.state
passes-IsSafe current timeout_s b h =
    (passes-IsHealthy current timeout_s b h, λ protect. is_recovered-HasRecovered b (ground arith))

pub IsSafe-passes :
    (current : GuardProfile) (timeout_s : ℕ) (b : GuardedBattery)
    → IsSafe current timeout_s b.thresholds b.state
    → passes current timeout_s b ≡ true
IsSafe-passes current timeout_s b (h, recovered) =
    let whole = cells_not_low b h.cells in
    let rest : (is_transport_ok timeout_s b && is_soc_valid b && not (is_soc_low b)) ≡ true =
      ground (arith, h.heartbeat, h.fresh, h.measured, h.from_empty, h.to_full, h.charged) in
    elim (Bool-cases (is_battery_protect current)) [
      | inr other ↦ ground arith
      | inl protect ↦ let again = HasRecovered-is_recovered b (recovered protect) in ground arith
    ]
