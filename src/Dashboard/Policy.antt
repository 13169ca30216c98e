-- ===== src/Dashboard/Policy.antt =====
-- The dashboard's policy (src/dashboard/policy.rs): rules, the evaluation of access requests, and
-- approvals.
pub mod Rule
pub mod Request
pub mod Evaluation
pub mod Order
pub mod Decisions
pub mod Engine
pub mod Approval
pub mod RuleSet
pub mod Changes
pub mod Managed
pub mod Nonces
pub mod Lifetime
pub mod Remembered
pub mod Effects
pub mod Grant
mod Tests
