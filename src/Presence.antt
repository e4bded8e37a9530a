-- ===== src/Presence.antt =====
-- internal/presence.
pub mod Manager
pub mod Typing
