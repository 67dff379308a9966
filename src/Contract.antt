-- ===== src/Contract.antt =====
-- crates/contract: events of contracts.
pub mod Events
