-- ===== src/Sessions.antt =====
-- Job journals and the clients that resume them (src/lib.rs, module `sessions`).
pub mod Journal
pub mod Resume
mod Tests
