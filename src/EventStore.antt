-- ===== src/EventStore.antt =====
-- The event store of the registry (src/registry_event_store.rs).
pub mod Codec
pub mod Fields
pub mod Header
pub mod Segment
pub mod Events
pub mod Reading
pub mod Batches
mod Tests
