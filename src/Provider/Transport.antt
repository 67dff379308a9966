-- ===== src/Provider/Transport.antt =====
-- crates/provider/src/transport/grpc/fullnode.rs: what the transport makes of a transaction that a node built.
-- A message type is a parameter, with the decoding of prost and its derived equality.
pub mod Built
pub mod Service
pub mod FullNode
pub mod Dispatch
pub mod Requested
use tronz.Prelude.{
  ℕ, ◌≡◌, Bool, true, false, Option, none, some, List, [], ◌∷◌, Bytes, length, Result, ok, err,
  ◌>>=◌, map_err, ok_or, if◌then◌else◌,
}
use tronz.Prelude.Int.{ℤ, eqb_ℤ}
use tronz.RpcTypes.Kind.{ContractKind, id}
use tronz.RpcTypes.Wire.{
  ResponseError, node_error, missing_transaction, missing_parameter, different_contract,
  contract_count, different_kind, no_raw_data,
}
use tronz.RpcTypes.Transaction.{
  Proto, ProtoTransaction, ProtoContract, RawTransaction, from_node_encoded,
}
use tronz.Provider.Error.{TransportErrorKind, proto, malformed_response, of_response}

-- `proto::Return` and `proto::TransactionExtention`.
pub record Return : Type 0 where
  pub succeeded : Bool
  pub message : Bytes

pub record TransactionExtention : Type 0 where
  pub transaction : Option ProtoTransaction
  pub txid : Bytes
  pub returned : Option Return

-- `prost::Message` and `PartialEq`, which tells apart what is different.
pub record Message (M : Type 0) : Type 0 where
  pub decode_message : Bytes → Result Bytes M
  pub same : M → M → Bool
  pub same→≡ : (a b : M) → same a b ≡ true → a ≡ b

unfoldable pub check_return : Option Return → Result ResponseError (Unit {0})
check_return none = ok tt
check_return (some r) = if r.succeeded then ok tt else err (node_error r.message)

-- `let [contract] = … else`.
abbrev pub exactly_one : List ProtoContract → Result TransportErrorKind ProtoContract
exactly_one (c ∷ []) = ok c
exactly_one cs = err (malformed_response (contract_count (length cs)))

abbrev pub agree : Bool → TransportErrorKind → Result TransportErrorKind (Unit {0})
agree true e = ok tt
agree false e = err e

module _ (p : Proto) where
  pub raw_from_queried_extention : TransactionExtention → Result TransportErrorKind RawTransaction
  raw_from_queried_extention ext = do
    _ ← map_err of_response (check_return ext.returned)
    tx ← ok_or ext.transaction (malformed_response missing_transaction)
    map_err of_response (from_node_encoded p (p.encode tx) ext.txid)

  -- A plain transaction carries no id of its own.
  pub raw_from_plain : ProtoTransaction → Result ResponseError RawTransaction
  raw_from_plain tx = from_node_encoded p (p.encode tx) []

  module _ {M : Type 0} (m : Message M) where
    unfoldable pub raw_from_extention_with :
        TransactionExtention → M → ContractKind → (M → M) → Result TransportErrorKind RawTransaction
    raw_from_extention_with ext sent kind allow_derived = do
      _ ← map_err of_response (check_return ext.returned)
      tx ← ok_or ext.transaction (malformed_response missing_transaction)
      raw_data ← ok_or tx.raw_data (malformed_response no_raw_data)
      contract ← exactly_one raw_data.contract
      _ ←
          agree (eqb_ℤ contract.kind (id kind))
            (malformed_response (different_kind contract.kind (id kind)))
      parameter ← ok_or contract.parameter (malformed_response missing_parameter)
      built ← map_err proto (m.decode_message parameter)
      _ ← agree (m.same (allow_derived built) sent) (malformed_response different_contract)
      map_err of_response (from_node_encoded p (p.encode tx) ext.txid)

    unfoldable pub raw_from_extention :
        TransactionExtention → M → ContractKind → Result TransportErrorKind RawTransaction
    unfolding raw_from_extention_with
    raw_from_extention ext sent kind = raw_from_extention_with ext sent kind (λ built. built)
