-- ===== src/NetZero/Lifecycle/Latch.antt =====
-- Theorems on NetZero/Lifecycle: the latch over single ticks and over runs of ticks.
use ha_ems.Prelude.{
  ℕ, ◌+◌, ◌≤◌, ◌<◌, ◌≡◌, true, false, not, Option, none, some, List, [], ◌∷◌, All, leb, length,
  arith, ◌⊎◌, ◌↔◌,
}
use ha_ems.Domain.Models.{
  DeviceControlContext, HardOffLifecycleTransition, PreviousDeviceState, LifecycleMode,
}
use ha_ems.NetZero.Lifecycle.{
  LifecycleInput, required_cycles, pv_below, effective_requested_active, recovery_condition,
  compute_hard_off_lifecycle_transition, persisted_state,
}

-- What every transition satisfies.
pub record IsCoherent (i : LifecycleInput) (t : HardOffLifecycleTransition) : Type 0 where
  pub blocked_iff_off : t.activation_allowed ≡ not t.hard_off_active
  pub low_cycles_capped : t.low_pv_cycles ≤ required_cycles i.hard_off_low_pv_cycles
  pub off_mode : (t.hard_off_active ≡ true) ↔ (t.mode ≡ LifecycleMode.hard_off)
  pub release_mode : (t.release_allowed ≡ true) ↔ (t.mode ≡ LifecycleMode.released)
  pub off_saturated :
      (t.hard_off_active ≡ false) ⊎ (t.low_pv_cycles ≡ required_cycles i.hard_off_low_pv_cycles)
  pub waiting_capped :
      (t.hard_off_active ≡ false)
      ⊎ (t.hard_off_release_ready_cycles < required_cycles i.hard_off_release_cycles)

-- After every transition, from any previous state, activation is allowed exactly if the device is
-- not latched off, the mode says whether it is latched off and whether it was released, the low-PV
-- counter is at most its threshold, and for a device latched off it stands at the threshold and
-- fewer recovery ticks are counted than are required.
pub transition-IsCoherent :
    (c : Option DeviceControlContext) (p : PreviousDeviceState) (i : LifecycleInput)
    → IsCoherent i (compute_hard_off_lifecycle_transition c p i)
unfolding compute_hard_off_lifecycle_transition
transition-IsCoherent none p i = ground arith
transition-IsCoherent (some c) p i = ground arith

-- The persisted state after a run of ticks.
pub run : DeviceControlContext → PreviousDeviceState → List LifecycleInput → PreviousDeviceState
run c p [] = p
run c p (i ∷ ticks) =
    run c (persisted_state (compute_hard_off_lifecycle_transition (some c) p i)) ticks

-- A tick of sustained solar recovery, with `n` such ticks required.
pub record IsRecovery (n : ℕ) (i : LifecycleInput) : Type 0 where
  pub enabled : i.lifecycle_enabled ≡ true
  pub recovers : recovery_condition i ≡ true
  pub required : required_cycles i.hard_off_release_cycles ≡ n

-- A tick of low solar power that asks for nothing, with `n` such ticks required.
pub record IsLow (n : ℕ) (i : LifecycleInput) : Type 0 where
  pub enabled : i.lifecycle_enabled ≡ true
  pub idle : effective_requested_active i ≡ false
  pub low : pv_below i.pv_power_w i.low_pv_threshold_w ≡ true
  pub required : required_cycles i.hard_off_low_pv_cycles ≡ n

recovery_step :
    (c : DeviceControlContext) (p : PreviousDeviceState) (i : LifecycleInput) (n : ℕ)
    → c.uses_hard_off_lifecycle ≡ true
    → p.hard_off_active ≡ true
    → IsRecovery n i
    → let q = persisted_state (compute_hard_off_lifecycle_transition (some c) p i) in
      (q.hard_off_release_ready_cycles ≡ p.hard_off_release_ready_cycles + 1)
      × (q.hard_off_active ≡ not (leb n (p.hard_off_release_ready_cycles + 1)))
unfolding compute_hard_off_lifecycle_transition persisted_state
recovery_step c p i n u off r = ground arith

-- A device that is latched off, with fewer recovery ticks counted than the `n` that are required,
-- stays off through further recovery ticks until `n` are counted, and the `n`-th releases it.
pub run-recovery :
    (c : DeviceControlContext) (n : ℕ) (ticks : List LifecycleInput) (p : PreviousDeviceState)
    → c.uses_hard_off_lifecycle ≡ true
    → p.hard_off_active ≡ true
    → p.hard_off_release_ready_cycles < n
    → p.hard_off_release_ready_cycles + length ticks ≤ n
    → All (IsRecovery n) ticks
    → (run c p ticks).hard_off_active ≡ not (leb n (p.hard_off_release_ready_cycles + length ticks))
unfolding run
run-recovery c n [] p u off w le r = ground arith
run-recovery c n (i ∷ []) p u off w le r = ground (arith, recovery_step c p i n u off r.0)
run-recovery c n (i ∷ j ∷ ticks) p u off w le r =
    let q = persisted_state (compute_hard_off_lifecycle_transition (some c) p i) in
    let now = recovery_step c p i n u off r.0 in
    ground (
      arith,
      now,
      run-recovery c n (j ∷ ticks) q u (ground (arith, now)) (ground (arith, now))
          (ground (arith, now)) r.1,
    )

low_step :
    (c : DeviceControlContext) (p : PreviousDeviceState) (i : LifecycleInput) (n : ℕ)
    → c.uses_hard_off_lifecycle ≡ true
    → p.hard_off_active ≡ false
    → p.low_pv_cycles < n
    → IsLow n i
    → let q = persisted_state (compute_hard_off_lifecycle_transition (some c) p i) in
      (q.low_pv_cycles ≡ p.low_pv_cycles + 1) × (q.hard_off_active ≡ leb n (p.low_pv_cycles + 1))
unfolding compute_hard_off_lifecycle_transition persisted_state
low_step c p i n u on w l = ground arith

-- A device that uses the latch and is available, with fewer low-PV ticks counted than the `n` that
-- are required, stays available through further idle low-PV ticks until `n` are counted, and the
-- `n`-th turns it off.
pub run-low :
    (c : DeviceControlContext) (n : ℕ) (ticks : List LifecycleInput) (p : PreviousDeviceState)
    → c.uses_hard_off_lifecycle ≡ true
    → p.hard_off_active ≡ false
    → p.low_pv_cycles < n
    → p.low_pv_cycles + length ticks ≤ n
    → All (IsLow n) ticks
    → (run c p ticks).hard_off_active ≡ leb n (p.low_pv_cycles + length ticks)
unfolding run
run-low c n [] p u on w le l = ground arith
run-low c n (i ∷ []) p u on w le l = ground (arith, low_step c p i n u on w l.0)
run-low c n (i ∷ j ∷ ticks) p u on w le l =
    let q = persisted_state (compute_hard_off_lifecycle_transition (some c) p i) in
    let now = low_step c p i n u on w l.0 in
    ground (
      arith,
      now,
      run-low c n (j ∷ ticks) q u (ground (arith, now)) (ground (arith, now)) (ground (arith, now))
          l.1,
    )

-- For a device that uses the latch, one tick without recovery while it is off loses all progress:
-- the recovery counter is 0, the low-PV counter stands at its threshold, and the device stays off.
pub interrupted_recovery :
    (c : DeviceControlContext) (p : PreviousDeviceState) (i : LifecycleInput)
    → c.uses_hard_off_lifecycle ≡ true
    → i.lifecycle_enabled ≡ true
    → p.hard_off_active ≡ true
    → recovery_condition i ≡ false
    → persisted_state (compute_hard_off_lifecycle_transition (some c) p i) ≡ record {
      low_pv_cycles = required_cycles i.hard_off_low_pv_cycles;
      hard_off_release_ready_cycles = 0;
      hard_off_active = true;
    }
unfolding compute_hard_off_lifecycle_transition persisted_state
interrupted_recovery c p i u e off r = ground arith
