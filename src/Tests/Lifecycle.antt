-- ===== src/Tests/Lifecycle.antt =====
-- The hard-off latch.
use ha_ems.Prelude.{◌+◌, true, false, not, some, [], ◌∷◌, pos, leb, ◌≡◌, refl, arith, length}
use ha_ems.Domain.Models.{PreviousDeviceState}
use ha_ems.NetZero.Lifecycle.{LifecycleInput}
use ha_ems.NetZero.Lifecycle.Latch.{IsRecovery, IsLow, run, run-recovery, run-low}
use ha_ems.Tests.Data.{battery_context}

abbrev dark_tick : LifecycleInput
dark_tick = record {
  lifecycle_enabled = true;
  requested_active = false;
  pv_power_w = some (pos 100000);
  low_pv_threshold_w = pos 500000;
  activation_blocked = false;
  hard_off_low_pv_cycles = 3;
  hard_off_release_cycles = 2;
}

abbrev sunny_tick : LifecycleInput
sunny_tick = record dark_tick { pv_power_w = some (pos 900000) }

abbrev latched : PreviousDeviceState
latched = record { low_pv_cycles = 3; hard_off_release_ready_cycles = 0; hard_off_active = true }

abbrev fresh : PreviousDeviceState
fresh = record { low_pv_cycles = 0; hard_off_release_ready_cycles = 0; hard_off_active = false }

sunny_tick-IsRecovery : IsRecovery 2 sunny_tick
sunny_tick-IsRecovery = record { enabled = refl; recovers = refl; required = refl }

dark_tick-IsLow : IsLow 3 dark_tick
dark_tick-IsLow = record { enabled = refl; idle = refl; low = refl; required = refl }

run-recovery_example :
    (run battery_context latched (sunny_tick ∷ sunny_tick ∷ [])).hard_off_active
    ≡ not (leb 2 (latched.hard_off_release_ready_cycles + length (sunny_tick ∷ sunny_tick ∷ [])))
run-recovery_example =
    run-recovery battery_context 2 (sunny_tick ∷ sunny_tick ∷ []) latched refl refl (omega arith)
      (omega arith) (sunny_tick-IsRecovery, (sunny_tick-IsRecovery, tt))

run-low_example :
    (run battery_context fresh (dark_tick ∷ dark_tick ∷ [])).hard_off_active
    ≡ leb 3 (fresh.low_pv_cycles + length (dark_tick ∷ dark_tick ∷ []))
run-low_example =
    run-low battery_context 3 (dark_tick ∷ dark_tick ∷ []) fresh refl refl (omega arith)
      (omega arith) (dark_tick-IsLow, (dark_tick-IsLow, tt))
