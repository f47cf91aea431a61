-- ===== src/Domain.antt =====
-- modules/ems_core/domain: the profiles, the device configuration and the values that the
-- controllers exchange, the capability clamp and the conversion of EV watts to amperes.
pub mod Profiles
pub mod Models
pub mod Capabilities
pub mod EvPower
