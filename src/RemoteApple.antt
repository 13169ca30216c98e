-- ===== src/RemoteApple.antt =====
-- The Apple agent's protocol and its jobs (src/lib.rs, module `remote_apple_protocol`).
pub mod JobId
pub mod Protocol
pub mod Envelope
pub mod Admission
pub mod Agent
pub mod EventLog
pub mod Invariant
pub mod Threads
pub mod Reports
pub mod Joining
pub mod Jobs
pub mod Thread
mod Tests
