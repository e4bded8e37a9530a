-- ===== src/RunLedger.antt =====
-- internal/runledger.
pub mod Store
pub mod Listing
pub mod SameIndex
pub mod Replay
