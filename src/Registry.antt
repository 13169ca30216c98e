-- ===== src/Registry.antt =====
-- The registry (src/registry_runtime.rs): who holds which device.
pub mod LeaseBook
pub mod Leasing
pub mod Invariant
pub mod Lookup
pub mod Protection
pub mod Handover
mod Tests
