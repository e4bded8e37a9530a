-- ===== src/Tests.antt =====
-- The theorems at concrete inputs.
pub mod SessionData
pub mod Sessions
pub mod Access
pub mod Schedules
pub mod Hooks
pub mod Runs
pub mod Selection
pub mod Subagents
pub mod Orchestrations
pub mod Repeats
