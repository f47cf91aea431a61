-- ===== src/Adapter.antt =====
-- modules/ems_adapter: how the configuration is compiled and materialised.
pub mod Config
pub mod Validation
