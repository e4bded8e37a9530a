-- ===== src/Orchestrator.antt =====
-- internal/orchestrator.
pub mod Cycle
pub mod Graph
pub mod Colors
pub mod Neighbours
pub mod Detect
pub mod Verdict
pub mod Types
pub mod Start
pub mod Accepted
pub mod Child
pub mod Hedged
pub mod Attempts
pub mod Wait
pub mod Wave
pub mod Released
pub mod Ordered
pub mod Unstuck
pub mod Aggregate
pub mod Stages
pub mod Watched
pub mod Recorded
