-- ===== src/Subagent.antt =====
-- internal/subagent/registry.go.
pub mod Records
pub mod Registry
pub mod Effects
