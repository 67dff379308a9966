-- ===== src/RpcTypes/Details.antt =====
-- crates/rpc-types/src/types/transaction.rs: `details`, what a transaction holds. The reading of the owner field
-- out of a parameter is prost's, and a parameter here.
pub mod Owners
use tronz.Prelude.{
  ℕ, Option, none, some, List, [], ◌∷◌, Bytes, Result, ok, err, ◌>>=◌, map_err, ok_or,
}
use tronz.Primitives.Address.{Address}
use tronz.Primitives.Amount.{Trx}
use tronz.RpcTypes.Kind.{ContractKind, OwnerField, owner_field, from_i32}
use tronz.RpcTypes.Wire.{ResponseError, decode_error, malformed, missing_raw_data}
use tronz.RpcTypes.Answers.{addr, collect_results}
use tronz.RpcTypes.Transaction.{Proto, ProtoContract, RawTransaction}

pub record TransactionContractDetails : Type 0 where
  pub kind : ContractKind
  pub owner : Option Address

pub record TransactionDetails : Type 0 where
  pub fee_limit : Trx
  pub memo : Bytes
  pub contracts : List TransactionContractDetails

abbrev pub optional_owner : Bytes → Result ResponseError (Option Address)
optional_owner [] = ok none
optional_owner (b ∷ bs) = addr (b ∷ bs) >>= λ a. ok (some a)

module _ (p : Proto) (owner_at : OwnerField → Bytes → Result Bytes Bytes) where
  abbrev pub owner_bytes : Option OwnerField → Option Bytes → Result ResponseError Bytes
  owner_bytes (some field) (some value) = map_err decode_error (owner_at field value)
  owner_bytes field value = ok []

  unfoldable pub contract_details : ProtoContract → Result ResponseError TransactionContractDetails
  contract_details contract =
      owner_bytes (owner_field (from_i32 contract.kind)) contract.parameter >>= λ bytes.
      optional_owner bytes >>= λ owner. ok (record { kind = from_i32 contract.kind; owner = owner })

  unfoldable pub details : RawTransaction → Result ResponseError TransactionDetails
  unfolding collect_results contract_details
  details raw = do
    tx ← map_err decode_error (p.decode raw.raw_proto)
    raw_data ← ok_or tx.raw_data (malformed missing_raw_data)
    contracts ← collect_results contract_details raw_data.contract
    ok (record {
      fee_limit = record { sun = raw_data.fee_limit };
      memo = raw_data.memo;
      contracts = contracts;
    })
