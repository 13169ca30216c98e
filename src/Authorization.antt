-- ===== src/Authorization.antt =====
-- The authorization of operations on devices (src/lib.rs, module `authorization`).
pub mod Engine
pub mod Exclusive
pub mod Guard
mod Tests
