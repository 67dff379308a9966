-- ===== src/Provider/Pending/Tests.antt =====
-- Runs of the polling at concrete inputs.
use tronz.Prelude.{
  ℕ, zero, suc, ◌<◌, ◌≡◌, ◌⊎◌, refl, true, none, some, ok, err, [], ◌∷◌, if◌then◌else◌, ltb,
}
use tronz.RpcTypes.Receipts.{TransactionInfo, succeeded, default_result}
use tronz.Primitives.Amount.{Trx}
use tronz.Prelude.Int.{pos}
use tronz.Provider.Error.{transport, connect, is_worth_reasking}
use tronz.Provider.Pending.{Answers, wait_for_transaction_with, get_receipt, confirmation_timeout}
use tronz.Provider.Pending.Polling.{
  DecidedAt, TimedOut, IsOpen, wait_for_transaction_with-settles, last_failure,
  get_receipt-times_out,
}

abbrev free : Trx
free = record { sun = pos 0 }

abbrev receipt : TransactionInfo
receipt = record {
  tx_id = 5 ∷ [];
  block_number = pos 7;
  block_timestamp = pos 0;
  status = succeeded;
  fee = free;
  energy_usage_total = pos 0;
  energy_fee = free;
  net_usage = pos 0;
  net_fee = free;
  receipt = record {
    energy_usage = pos 0;
    energy_fee = free;
    origin_energy_usage = pos 0;
    energy_usage_total = pos 0;
    net_usage = pos 0;
    net_fee = free;
    energy_penalty_total = pos 0;
  };
  contract_result = default_result;
  contract_address = none;
  logs = [];
  internal_transactions = [];
  revert_reason = none;
}

-- Indexed at the third attempt.
abbrev slow : Answers
slow n = if ltb n 2 then ok none else ok (some receipt)

wait_for_transaction_with-settles_example :
    ((n : ℕ) × (n < 20) × DecidedAt slow 0 n (wait_for_transaction_with slow 20))
    ⊎ TimedOut slow 0 20 (wait_for_transaction_with slow 20)
wait_for_transaction_with-settles_example = wait_for_transaction_with-settles slow 20

-- Not known at first, then unreachable twice.
abbrev unreachable : Answers
unreachable zero = ok none
unreachable (suc n) = err (transport (connect (n ∷ [])))

unreachable-IsOpen : (k : ℕ) → k < 3 → IsOpen (unreachable k)
unfolding is_worth_reasking
unreachable-IsOpen zero h = tt
unreachable-IsOpen (suc k) h = refl

get_receipt-times_out_example :
    get_receipt true unreachable 3 ≡ err (confirmation_timeout (last_failure unreachable 3))
get_receipt-times_out_example = get_receipt-times_out unreachable true 3 unreachable-IsOpen
