-- ===== src/Scheduler.antt =====
-- internal/scheduler.
pub mod Jobs
pub mod Retries
pub mod Dispatch
pub mod Launched
pub mod Pending
pub mod RunLog
pub mod Newest
