-- ===== src/Abi.antt =====
-- crates/abi: the interface of a contract as TRON stores it. Strings are their UTF-8 bytes.
pub mod Entries
