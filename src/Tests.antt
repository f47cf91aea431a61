-- ===== src/Tests.antt =====
-- Example configurations, one run of each main theorem of the development on them.
pub mod Data
pub mod Surplus
pub mod Persistence
pub mod Guarded
pub mod Lifecycle
pub mod Regulation
pub mod Devices
pub mod Plan
pub mod Writers
pub mod Engine
pub mod Policy
pub mod Config
pub mod Validation
