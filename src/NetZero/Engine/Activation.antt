-- ===== src/NetZero/Engine/Activation.antt =====
-- Theorems on NetZero/Engine: the device that a tick activates.
use ha_ems.Prelude.{some, String, ◌≡◌, refl}
use ha_ems.Surplus.Contexts.Qualified.{MayBeActivated, activated-MayBeActivated}
use ha_ems.NetZero.Engine.Input.{EngineInput}
use ha_ems.NetZero.Engine.Tick.{candidate_input, dispatch_input, surplus_decision}

-- A device that a tick activates is configured, is not the effective primary consumer of that tick,
-- can absorb power, is allowed to take surplus, is not forced on and not active yet, and the hard-off
-- latch of that tick allows it.
pub tick_activates :
    (i : EngineInput) {x : String}
    → (surplus_decision i).activate ≡ some x
    → MayBeActivated (candidate_input i) x
unfolding surplus_decision dispatch_input
tick_activates i e =
    activated-MayBeActivated (candidate_input i) (dispatch_input i) i.now_ts i.surplus_freeze_s refl
      e
