-- ===== src/RpcTypes/Messages.antt =====
-- crates/rpc-types/src/generated/protocol.rs: the messages that a request is sent as, with the conversions of
-- crates/rpc-types/src/codec.
pub mod Abi
pub mod Staking
pub mod Accounts
pub mod Tokens
pub mod Contracts
