-- ===== src/Handler.antt =====
-- internal/handler: requests that are repeated under a key, and the policy on tools.
pub mod Idempotency
pub mod Executions
pub mod Relation
pub mod Refines
pub mod ToolNamesData
pub mod ToolPolicy
pub mod Denied
pub mod Execute
pub mod Leading
pub mod Refused
