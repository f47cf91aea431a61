-- ===== src/Policy.antt =====
-- ems_policy_engine.py: when the policy engine runs, and what it publishes.
pub mod Timer
pub mod Ids
