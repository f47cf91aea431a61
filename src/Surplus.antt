-- ===== src/Surplus.antt =====
-- modules/ems_core/net_zero/surplus_allocator.py: which surplus device to activate or release next.
pub mod Order
pub mod Contexts
pub mod Allocator
