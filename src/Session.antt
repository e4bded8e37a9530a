-- ===== src/Session.antt =====
-- internal/session/store.go.
pub mod Data
pub mod Prune
pub mod Compaction
pub mod Append
pub mod Lifecycle
pub mod Store
pub mod Interleaving
pub mod Recovery
pub mod Isolation
pub mod Subscribers
pub mod Cap
pub mod Policies
pub mod PolicyEffects
pub mod Maintain
pub mod Expiry
pub mod Maintained
