-- ===== src/NetZero/Engine.antt =====
-- modules/ems_core/net_zero/engine.py: compute_net_zero_engine_outputs, one tick of the engine,
-- which composes the modules beside this one.
pub mod Devices
pub mod Latches
pub mod Build
pub mod Input
pub mod Tick
pub mod Targets
pub mod Outputs
pub mod Complete
pub mod Activation
pub mod Own
pub mod Latched
pub mod Discharge
pub mod Shares
pub mod Limits
