-- ===== src/Workflow.antt =====
-- internal/workflow.
pub mod Data
pub mod Runner
pub mod Termination
pub mod Routing
