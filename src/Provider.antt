-- ===== src/Provider.antt =====
-- internal/provider/key_selector.go.
pub mod Counting
pub mod Keys
pub mod Choice
pub mod Usage
pub mod Sticky
