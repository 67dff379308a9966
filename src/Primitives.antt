-- ===== src/Primitives.antt =====
-- crates/primitives: amounts, addresses, signatures, messages.
pub mod Amount
pub mod Address
pub mod Resource
pub mod Signature
pub mod Message
pub mod Log
