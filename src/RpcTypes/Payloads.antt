-- ===== src/RpcTypes/Payloads.antt =====
-- crates/rpc-types/src/types/contract.rs: the payloads of the contract kinds. A string is its bytes, a hash
-- map the list of its entries.
pub mod Staking
pub mod Accounts
pub mod Tokens
pub mod Contracts
