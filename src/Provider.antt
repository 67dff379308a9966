-- ===== src/Provider.antt =====
-- The provider crate: errors, retries, fillers, sending and polling.
pub mod Error
pub mod Retry
pub mod Fillers
pub mod Transport
pub mod Send
pub mod Pending
