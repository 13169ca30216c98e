-- ===== src/Dashboard.antt =====
-- The dashboard of the daemon (src/dashboard): its data model and the event journal.
pub mod Model
pub mod Journal
pub mod Policy
