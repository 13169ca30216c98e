-- ===== src/ControllerSession.antt =====
-- Controller sessions and mesh approvals (src/lib.rs, module `controller_session`).
pub mod Transport
pub mod Replay
pub mod Session
pub mod Once
pub mod Verified
pub mod Issued
pub mod Approved
mod Tests
pub mod Mesh
