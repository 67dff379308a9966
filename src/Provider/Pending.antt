-- ===== src/Provider/Pending.antt =====
-- crates/provider/src/provider/pending.rs and crates/provider/src/provider/solidity.rs: polling until a
-- transaction is confirmed. The node's answers are a function of the attempt. The wall clock of
-- `get_receipt` lets a number of attempts through, which is a parameter of its run; a run of
-- `wait_for_transaction_with` counts its attempts itself.
pub mod Polling
mod Tests
use tronz.Prelude.{
  ℕ, zero, suc, ◌+◌, ◌≡◌, Bool, true, false, not, ◌&&◌, Option, none, some, Result, ok, err, ◌>>=◌,
  if◌then◌else◌,
}
use tronz.RpcTypes.Receipts.{TransactionInfo, is_success}
use tronz.Provider.Error.{RpcError, is_worth_reasking}

pub data PendingTransactionError : Type 0 where
  transport_error : RpcError → PendingTransactionError
  confirmation_timeout : Option RpcError → PendingTransactionError
  reverted : TransactionInfo → PendingTransactionError

abbrev pub Answers : Type 0
Answers = ℕ → Result RpcError (Option TransactionInfo)

-- One round of either loop: the rest of it takes the last error.
pub poll_round :
    (Option RpcError → Result PendingTransactionError TransactionInfo)
    → Option RpcError
    → Result RpcError (Option TransactionInfo)
    → Result PendingTransactionError TransactionInfo
unfolding is_worth_reasking
poll_round rest last_error (ok (some info)) = ok info
poll_round rest last_error (ok none) = rest last_error
poll_round rest last_error (err e) =
    if is_worth_reasking e then rest (some e) else err (transport_error e)

-- The attempts from `attempt` on, of which `left` are left.
pub wait_from : Answers → ℕ → ℕ → Option RpcError → Result PendingTransactionError TransactionInfo
unfolding poll_round
wait_from ask attempt zero last_error = err (confirmation_timeout last_error)
wait_from ask attempt (suc left) last_error =
    poll_round (wait_from ask (attempt + 1) left) last_error (ask attempt)

pub wait_for_transaction_with : Answers → ℕ → Result PendingTransactionError TransactionInfo
unfolding wait_from
wait_for_transaction_with ask max_attempts = wait_from ask 0 max_attempts none

abbrev pub checked_success : Bool → TransactionInfo → Result PendingTransactionError TransactionInfo
checked_success require_success info =
    if require_success && not (is_success info) then err (reverted info) else ok info

pub wait_for_success_with : Answers → ℕ → Result PendingTransactionError TransactionInfo
unfolding wait_for_transaction_with
wait_for_success_with ask max_attempts =
    wait_for_transaction_with ask max_attempts >>= λ info. checked_success true info

-- `get_receipt`, with the attempts that the timeout lets through.
pub get_receipt : Bool → Answers → ℕ → Result PendingTransactionError TransactionInfo
unfolding wait_from
get_receipt require_success ask attempts =
    wait_from ask 0 attempts none >>= λ info. checked_success require_success info
