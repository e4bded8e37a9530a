-- ===== src/Channels.antt =====
-- internal/channels: bindings of senders to peers, the direct-message policy, and text chunking.
pub mod BindingData
pub mod Bindings
pub mod Approval
pub mod Operator
pub mod DmPolicy
pub mod TextChunk
pub mod Chunks
