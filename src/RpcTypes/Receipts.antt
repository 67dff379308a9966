-- ===== src/RpcTypes/Receipts.antt =====
-- crates/rpc-types/src/types/receipt.rs and its conversion in crates/rpc-types/src/codec/mod.rs: what became of a
-- transaction. The lossy reading of text is a parameter.
pub mod Reading
pub mod Verdict
mod Tests
use tronz.Prelude.{
  ℕ, ◌≡◌, Bool, true, false, not, ◌&&◌, ◌||◌, Option, none, some, List, [], ◌∷◌, Bytes, length, map,
  Result, ok, err, ◌>>=◌, ◌==◌, if◌then◌else◌,
}
use tronz.Prelude.Int.{ℤ, pos, negsuc, eqb_ℤ}
use tronz.Primitives.Address.{Address}
use tronz.Primitives.Amount.{Trx}
use tronz.Primitives.Log.{Log, new_unchecked}
use tronz.RpcTypes.Wire.{ResponseError, malformed, txid_length, hash_length_of_call}
use tronz.RpcTypes.Block.{is_empty}
use tronz.RpcTypes.Answers.{opt_addr, log_addr, b256, collect_results}

pub data TxStatus : Type 0 where
  succeeded failed : TxStatus

pub data ContractResult : Type 0 where
  default_result success revert bad_jump_destination out_of_memory precompiled_contract :
      ContractResult
  stack_too_small stack_too_large illegal_operation stack_overflow out_of_energy : ContractResult
  out_of_time jvm_stack_overflow unknown_failure transfer_failed invalid_code : ContractResult
  other : ℤ → ContractResult

abbrev pub is_failure : ContractResult → Bool
is_failure default_result = false
is_failure success = false
is_failure r = true

pub record ResourceReceipt : Type 0 where
  pub energy_usage : ℤ
  pub energy_fee : Trx
  pub origin_energy_usage : ℤ
  pub energy_usage_total : ℤ
  pub net_usage : ℤ
  pub net_fee : Trx
  pub energy_penalty_total : ℤ

pub record CallValue : Type 0 where
  pub amount : ℤ
  pub token_id : Bytes

pub record InternalTransaction : Type 0 where
  pub hash : Bytes
  pub caller_address : Option Address
  pub transfer_to_address : Option Address
  pub call_values : List CallValue
  pub note : Bytes
  pub rejected : Bool
  pub extra : Bytes

pub record TransactionInfo : Type 0 where
  pub tx_id : Bytes
  pub block_number : ℤ
  pub block_timestamp : ℤ
  pub status : TxStatus
  pub fee : Trx
  pub energy_usage_total : ℤ
  pub energy_fee : Trx
  pub net_usage : ℤ
  pub net_fee : Trx
  pub receipt : ResourceReceipt
  pub contract_result : ContractResult
  pub contract_address : Option Address
  pub logs : List Log
  pub internal_transactions : List InternalTransaction
  pub revert_reason : Option Bytes

abbrev pub is_succeeded : TxStatus → Bool
is_succeeded succeeded = true
is_succeeded failed = false

abbrev pub is_success : TransactionInfo → Bool
is_success info = is_succeeded info.status

-- The generated messages, as far as the conversion reads them.
pub record ResourceReceiptMessage : Type 0 where
  pub energy_usage : ℤ
  pub energy_fee : ℤ
  pub origin_energy_usage : ℤ
  pub energy_usage_total : ℤ
  pub net_usage : ℤ
  pub net_fee : ℤ
  pub outcome : ℤ
  pub energy_penalty_total : ℤ

pub record LogMessage : Type 0 where
  pub address : Bytes
  pub topics : List Bytes
  pub log_data : Bytes

pub record CallValueMessage : Type 0 where
  pub call_value : ℤ
  pub token_id : Bytes

pub record InternalTransactionMessage : Type 0 where
  pub hash : Bytes
  pub caller_address : Bytes
  pub transfer_to_address : Bytes
  pub call_value_info : List CallValueMessage
  pub note : Bytes
  pub rejected : Bool
  pub extra : Bytes

pub record TransactionInfoMessage : Type 0 where
  pub id : Bytes
  pub fee : ℤ
  pub block_number : ℤ
  pub block_time_stamp : ℤ
  pub contract_address : Bytes
  pub receipt : Option ResourceReceiptMessage
  pub log : List LogMessage
  pub outcome : ℤ
  pub res_message : Bytes
  pub internal_transactions : List InternalTransactionMessage

-- The match on the code of a receipt, in two ranges.
abbrev pub result_from_8 : ℕ → ContractResult
result_from_8 n =
    if n == 8
    then illegal_operation
    else if n == 9
    then stack_overflow
    else if n == 10
    then out_of_energy
    else if n == 11
    then out_of_time
    else if n == 12
    then jvm_stack_overflow
    else if n == 13
    then unknown_failure
    else if n == 14
    then transfer_failed
    else if n == 15
    then invalid_code
    else other (pos n)

abbrev pub result_from_0 : ℕ → ContractResult
result_from_0 n =
    if n == 0
    then default_result
    else if n == 1
    then success
    else if n == 2
    then revert
    else if n == 3
    then bad_jump_destination
    else if n == 4
    then out_of_memory
    else if n == 5
    then precompiled_contract
    else if n == 6
    then stack_too_small
    else if n == 7
    then stack_too_large
    else result_from_8 n

unfoldable pub contract_result_of : ℤ → ContractResult
contract_result_of (pos n) = result_from_0 n
contract_result_of (negsuc n) = other (negsuc n)

abbrev pub or_default : Option ResourceReceiptMessage → ResourceReceiptMessage
or_default (some r) = r
or_default none = record {
  energy_usage = pos 0;
  energy_fee = pos 0;
  origin_energy_usage = pos 0;
  energy_usage_total = pos 0;
  net_usage = pos 0;
  net_fee = pos 0;
  outcome = pos 0;
  energy_penalty_total = pos 0;
}

abbrev pub status_of : ℤ → ContractResult → TxStatus
status_of outcome r = if not (eqb_ℤ outcome (pos 0)) || is_failure r then failed else succeeded

abbrev pub exactly_32 : Bytes → ResponseError → Result ResponseError Bytes
exactly_32 bytes e = if length bytes == 32 then ok bytes else err e

abbrev pub from_sun_unchecked : ℤ → Trx
from_sun_unchecked n = record { sun = n }

unfoldable pub log_from_proto : LogMessage → Result ResponseError Log
log_from_proto l = log_addr l.address >>= λ a. ok (new_unchecked a (map b256 l.topics) l.log_data)

abbrev pub call_value_from_proto : CallValueMessage → CallValue
call_value_from_proto v = record { amount = v.call_value; token_id = v.token_id }

module _ (lossy : Bytes → Bytes) where
  pub internal_transaction_from_proto :
      InternalTransactionMessage → Result ResponseError InternalTransaction
  internal_transaction_from_proto tx =
      exactly_32 tx.hash (malformed hash_length_of_call) >>= λ hash. ok (record {
        hash = hash;
        caller_address = opt_addr tx.caller_address;
        transfer_to_address = opt_addr tx.transfer_to_address;
        call_values = map call_value_from_proto tx.call_value_info;
        note = lossy tx.note;
        rejected = tx.rejected;
        extra = tx.extra;
      })

  abbrev pub reason_of : Bytes → Option Bytes
  reason_of [] = none
  reason_of (b ∷ bs) = some (lossy (b ∷ bs))

  abbrev pub found_info :
      TransactionInfoMessage
      → ResourceReceiptMessage
      → Bytes
      → List Log
      → List InternalTransaction
      → TransactionInfo
  found_info info receipt tx_id logs internal_transactions = record {
    tx_id = tx_id;
    block_number = info.block_number;
    block_timestamp = info.block_time_stamp;
    status = status_of info.outcome (contract_result_of receipt.outcome);
    fee = from_sun_unchecked info.fee;
    energy_usage_total = receipt.energy_usage_total;
    energy_fee = from_sun_unchecked receipt.energy_fee;
    net_usage = receipt.net_usage;
    net_fee = from_sun_unchecked receipt.net_fee;
    receipt = record {
      energy_usage = receipt.energy_usage;
      energy_fee = from_sun_unchecked receipt.energy_fee;
      origin_energy_usage = receipt.origin_energy_usage;
      energy_usage_total = receipt.energy_usage_total;
      net_usage = receipt.net_usage;
      net_fee = from_sun_unchecked receipt.net_fee;
      energy_penalty_total = receipt.energy_penalty_total;
    };
    contract_result = contract_result_of receipt.outcome;
    contract_address = opt_addr info.contract_address;
    logs = logs;
    internal_transactions = internal_transactions;
    revert_reason = reason_of info.res_message;
  }

  abbrev pub converted_info : TransactionInfoMessage → Result ResponseError TransactionInfo
  converted_info info = do
    tx_id ← exactly_32 info.id (malformed txid_length)
    logs ← collect_results log_from_proto info.log
    internal_transactions ←
        collect_results internal_transaction_from_proto info.internal_transactions
    ok (found_info info (or_default info.receipt) tx_id logs internal_transactions)

  pub transaction_info_from_proto :
      TransactionInfoMessage → Result ResponseError (Option TransactionInfo)
  transaction_info_from_proto info =
      if is_empty info.id then ok none else (converted_info info >>= λ i. ok (some i))
