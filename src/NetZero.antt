-- ===== src/NetZero.antt =====
-- modules/ems_core/net_zero: the controllers that turn measurements into device targets.
pub mod Feedback
pub mod DerivedInputs
pub mod Lifecycle
pub mod Producer
pub mod Forecast
pub mod Judgement
pub mod Primary
pub mod Battery
pub mod Ev
pub mod Enforcement
pub mod Engine
