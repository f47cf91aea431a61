-- ===== src/Writers.antt =====
-- ems_actuator_writers.py: the loop that makes the actuators follow the published policies.
pub mod Services
pub mod Policies
pub mod Battery
pub mod Ev
pub mod Relay
pub mod Loop
