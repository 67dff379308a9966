-- ===== src/RpcTypes.antt =====
-- crates/rpc-types: contract kinds, requests, transactions, blocks and permissions.
pub mod Kind
pub mod Payloads
pub mod Messages
pub mod Contract
pub mod Operations
pub mod Permissions
pub mod Answers
pub mod Receipts
pub mod Response
pub mod Accounts
pub mod Queries
pub mod Wire
pub mod Block
pub mod Transaction
pub mod Details
