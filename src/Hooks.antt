-- ===== src/Hooks.antt =====
-- internal/ops/hooks.go.
pub mod Manager
pub mod Sorted
pub mod Order
