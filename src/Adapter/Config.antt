-- ===== src/Adapter/Config.antt =====
-- modules/ems_adapter/config_loader.py: values (Values), sections (Sections), the entries that are
-- compiled once for a device (DevicePlans) and for the whole file (Plan), and the configuration that
-- every tick builds from them (DeviceConfigs, DeviceMaps, CoreConfigs).
pub mod Values
pub mod Sections
pub mod DevicePlans
pub mod Roles
pub mod Plan
pub mod DeviceConfigs
pub mod DeviceMaps
pub mod CoreConfigs
pub mod Resolved
pub mod Lookups
pub mod Covered
pub mod Tables
pub mod DevicesResolved
pub mod Complete
pub mod Intervals
pub mod DeviceParts
pub mod Direct
pub mod Loaded
pub mod Loop
pub mod HaeoResolved
pub mod RolesResolved
pub mod Equal
