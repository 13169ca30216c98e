-- ===== src/Dashboard/Journal.antt =====
-- The event journal (src/dashboard/event_log.rs): a bounded log of activity events under an epoch,
-- with idempotent appends, paged reads and subscribers. Its mutex makes each method one step.
pub mod State
pub mod Append
pub mod Read
pub mod Subscribers
pub mod Invariant
pub mod Eviction
pub mod Outcome
pub mod Transaction
pub mod Filling
pub mod Paging
pub mod Delivery
mod Tests
pub mod Acknowledgement
pub mod History
pub mod Attendance
pub mod Preflight
