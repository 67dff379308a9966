-- ===== src/RpcTypes/Receipts/Tests.antt =====
-- A receipt of a transaction that ran out of energy.
use tronz.Prelude.{
  ◌≡◌, ◌↔◌, refl, true, none, some, [], ◌∷◌, Bytes, length, replicate, ok, Pairwise,
}
use tronz.Prelude.Int.{pos}
use tronz.Primitives.Address.{from_slice, from_evm_bytes}
use tronz.Primitives.Log.{Log}
use tronz.RpcTypes.Answers.{collect_results, log_addr, opt_addr, b256}
use tronz.RpcTypes.Receipts.{
  TransactionInfo, TransactionInfoMessage, InternalTransaction, is_success, found_info, or_default,
  transaction_info_from_proto, log_from_proto, internal_transaction_from_proto,
}
use tronz.RpcTypes.Receipts.Reading.{LogRead, CallRead}
use tronz.RpcTypes.Receipts.Verdict.{IsGood, transaction_info_from_proto-verdict}

abbrev exact : Bytes → Bytes
exact text = text

abbrev answer : TransactionInfoMessage
answer = record {
  id = replicate 32 5;
  fee = pos 3;
  block_number = pos 4;
  block_time_stamp = pos 8;
  contract_address = [];
  receipt = some (record {
    energy_usage = pos 0;
    energy_fee = pos 1;
    origin_energy_usage = pos 0;
    energy_usage_total = pos 7;
    net_usage = pos 0;
    net_fee = pos 2;
    outcome = pos 10;
    energy_penalty_total = pos 0;
  });
  log = record { address = replicate 20 7; topics = replicate 32 9 ∷ []; log_data = 1 ∷ [] } ∷ [];
  outcome = pos 0;
  res_message = [];
  internal_transactions =
      record {
        hash = replicate 32 3;
        caller_address = 0x41 ∷ replicate 20 7;
        transfer_to_address = [];
        call_value_info = record { call_value = pos 6; token_id = [] } ∷ [];
        note = 4 ∷ [];
        rejected = true;
        extra = [];
      }
      ∷ [];
}

abbrev log : Log
log = record {
  address = record { bytes = 0x41 ∷ replicate 20 7 };
  topics = replicate 32 9 ∷ [];
  log_data = 1 ∷ [];
}

abbrev call : InternalTransaction
call = record {
  hash = replicate 32 3;
  caller_address = some (record { bytes = 0x41 ∷ replicate 20 7 });
  transfer_to_address = none;
  call_values = record { amount = pos 6; token_id = [] } ∷ [];
  note = 4 ∷ [];
  rejected = true;
  extra = [];
}

abbrev info : TransactionInfo
info = found_info exact answer (or_default answer.receipt) (replicate 32 5) (log ∷ []) (call ∷ [])

found : transaction_info_from_proto exact answer ≡ ok (some info)
unfolding transaction_info_from_proto collect_results log_from_proto log_addr
    internal_transaction_from_proto opt_addr b256 from_slice from_evm_bytes
found = refl

transaction_info_from_proto-verdict_example :
    (info.tx_id ≡ answer.id)
    × (length answer.id ≡ 32)
    × ((is_success info ≡ true) ↔ ((answer.outcome ≡ pos 0) × IsGood (pos 10)))
    × Pairwise LogRead answer.log info.logs
    × Pairwise (CallRead exact) answer.internal_transactions info.internal_transactions
transaction_info_from_proto-verdict_example =
    transaction_info_from_proto-verdict exact answer info found
