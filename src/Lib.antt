-- ===== src/Lib.antt =====
-- tronz, a client library for the TRON network, as a verification library.
--
-- The program. `crates/primitives` has amounts, addresses, signatures and signed messages.
-- `crates/rpc-types` has what a node is sent and answers: contracts, blocks and transactions, whose id
-- is the hash of the raw data found in the received bytes. `crates/provider` sends a request: its
-- fillers complete it (TAPOS fields of a recent block, a fee limit), the node builds the
-- transaction, the request's fields are applied to it, a wallet signs its id, it is broadcast, and
-- its receipt is polled for. Calls but the broadcast are retried, between the two halves of each
-- middleware. `crates/signer` holds the keys and the wallet; what a list of signatures is worth is
-- decided by the permissions of the account. `crates/contract` reads the events of contracts, and
-- follows new blocks for them.
--
-- The files.
--   Prelude: shared lists, results, Boolean tests, signed integers and bits.
--   Primitives.Amount: `Trx` of crates/primitives/src/amount.rs. The two loops of `from_str` are `scan`
--     and `digits_value`; Decimal is about the printing of numbers, Parse about the scan.
--   Primitives.Address: crates/primitives/src/address.rs.
--   Primitives.Signature: crates/primitives/src/signature.rs.
--   Primitives.Message: crates/primitives/src/message.rs.
--   Primitives.Resource and Primitives.Log: crates/primitives/src/resource.rs and log.rs.
--   Abi.Entries: crates/abi/src/item.rs, abi.rs and param.rs.
--   RpcTypes.Kind and RpcTypes.Contract: `ContractKind` and `ContractType` of
--     crates/rpc-types/src/types/contract.rs.
--   RpcTypes.Payloads: the contracts of crates/rpc-types/src/types/contract.rs with their fields.
--   RpcTypes.Messages: the messages of crates/rpc-types/src/generated/protocol.rs that they are sent as, by the
--     `_to_proto` functions of crates/rpc-types/src/codec/mod.rs and, of the ABI, codec/abi.rs.
--   RpcTypes.Answers, RpcTypes.Accounts, RpcTypes.Receipts and RpcTypes.Queries: the conversions of answers in
--     crates/rpc-types/src/codec/mod.rs, with the types of types/account.rs, receipt.rs and network.rs.
--   RpcTypes.Details: `details` of crates/rpc-types/src/types/transaction.rs.
--   RpcTypes.Operations: `OperationSet` of crates/rpc-types/src/types/contract.rs. Sets has the bitmap as
--     a set of numbers, Refinement the operations on it, Iteration the iterator.
--   RpcTypes.Permissions: `Permission` of crates/rpc-types/src/types/contract.rs and
--     `AccountPermissions` of crates/rpc-types/src/types/account.rs.
--   RpcTypes.Response: the conversion of permissions of crates/rpc-types/src/codec/mod.rs.
--   RpcTypes.Wire: `read_varint`, `skip` and `extract_raw_data` of
--     crates/rpc-types/src/types/transaction.rs.
--   RpcTypes.Block: crates/rpc-types/src/types/block.rs and crates/rpc-types/src/light_block.rs.
--   RpcTypes.Transaction: `RawTransaction` and `SignedTransaction` of
--     crates/rpc-types/src/types/transaction.rs. `decode_raw` and `decode_signed` are their `decode`.
--     Applied is what a request changes of a built transaction, Ids the id that it has.
--   Provider.Error: crates/provider/src/error.rs, with the status mapping of
--     crates/provider/src/transport/grpc/mod.rs and `is_worth_reasking`. Broadcasts is about the failures
--     of a broadcast.
--   Provider.Retry: `retry` and `call_with_retry` of crates/provider/src/transport/grpc/core.rs.
--   Provider.Fillers: crates/provider/src/fillers/mod.rs.
--     Keeps is about the contract of a request, which no filler touches.
--   Provider.Transport: the building calls of crates/provider/src/transport/grpc/fullnode.rs. Service has the node
--     and prost's codecs as records, FullNode a function per call, Dispatch the match of `build_via_transport` on the
--     contract, Requested what a built transaction carries.
--   Provider.Send: `build_via_transport` and `broadcast` of crates/provider/src/provider/mod.rs,
--     `FilledProvider` of crates/provider/src/provider/builder.rs, and the signing of `WalletFiller`.
--     Fields is about the transaction that is built for a request, Sent about what is put on the network,
--     and Asked composes them with the transport.
--   Provider.Pending: the polling of crates/provider/src/provider/pending.rs and solidity.rs.
--   Signer.Local: crates/signer/src/local.rs, and `sign_message` of crates/signer/src/signer.rs.
--   Signer.Wallet: `TronWallet` of crates/signer/src/wallet.rs. Defaults has the wallets that a client can
--     make, as a step relation, Routing the signing with several keys.
--   Contract.Events: crates/contract/src/event_filter.rs. Cursor is about the blocks that a poll scans,
--     Following about one poll, Runs about any number of them.
--
-- Representation. A string or an array is the list of its bytes, with its length as an invariant where
-- one matters. An `i64` is an integer `ℤ`, an unsigned number a native one, each with its range as
-- a check or a hypothesis and its wrap-around written out. `usize` has 64 bits. A cursor is the
-- bytes from it on. An error message that the code formats is a constructor of its own.
-- bs58, hex, k256, keccak, sha2 and prost are parameters, and so are the node, the wallet and the
-- clock: a node is the record of its answers.
--
-- Bounds. The scan for raw data runs on fuel, the length of its input; a varint on ten rounds, as in
-- the code; the retry loop on `max_attempts`, at least one; the printing of a `u64` on twenty
-- digits; the iterator of an operation set on 257 steps, one more than there are bits. Block
-- heights, confirmations and windows of the watcher are at most 2 ^ 60, far from the bounds of an
-- `i64`; nothing is said of it beyond.
--
-- Left out: network input and output, waits and jitter, generated services, the queries
-- of the transport, which forward, keystores and remote signers, the builders and the macro. Concurrent fills are not
-- modelled: a fill is one step, as the locks of its caches make it for each of them. The blocks of a
-- range of events are fetched one by one, since the code keeps their order.
pub mod Prelude
pub mod Primitives
pub mod Abi
pub mod RpcTypes
pub mod Provider
pub mod Signer
pub mod Contract
