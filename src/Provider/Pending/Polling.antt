-- ===== src/Provider/Pending/Polling.antt =====
-- What polling answers.
use tronz.Prelude.{
  ℕ, zero, suc, ◌+◌, ◌≡◌, ◌⊎◌, ◌<◌, ◌≤◌, inl, inr, refl, sym, ap, ◌∙◌, subst, Bool, true, false,
  Option, none, some, Result, ok, err, arith, Bool-cases,
}
use tronz.RpcTypes.Receipts.{TransactionInfo}
use tronz.Provider.Error.{RpcError, is_worth_reasking}
use tronz.Provider.Pending.{
  PendingTransactionError, transport_error, confirmation_timeout, Answers, poll_round, wait_from,
  wait_for_transaction_with, get_receipt,
}

-- An answer after which the loop asks again.
abbrev pub IsOpen : Result RpcError (Option TransactionInfo) → Type 0
IsOpen (ok none) = Unit {0}
IsOpen (ok (some info)) = ⊥
IsOpen (err e) = is_worth_reasking e ≡ true

-- The run ended at attempt `n`, the first answer that is not open, and answers by it.
abbrev pub DecidedAt : Answers → ℕ → ℕ → Result PendingTransactionError TransactionInfo → Type 0
DecidedAt ask from n r =
    (from ≤ n)
    × ((k : ℕ) → from ≤ k → k < n → IsOpen (ask k))
    × (((info : TransactionInfo) × (ask n ≡ ok (some info)) × (r ≡ ok info))
        ⊎ ((e : RpcError) × (ask n ≡ err e)
            × (is_worth_reasking e ≡ false)
            × (r ≡ err (transport_error e))))

abbrev pub TimedOut : Answers → ℕ → ℕ → Result PendingTransactionError TransactionInfo → Type 0
TimedOut ask from end r =
    ((k : ℕ) → from ≤ k → k < end → IsOpen (ask k))
    × ((e : Option RpcError) × (r ≡ err (confirmation_timeout e)))

split_le : (a n : ℕ) → a ≤ n → (a ≡ n) ⊎ (a + 1 ≤ n)
split_le a n h = ground arith

module _ (ask : Answers) where
  extend :
      (attempt n : ℕ)
      → IsOpen (ask attempt)
      → ((k : ℕ) → attempt + 1 ≤ k → k < n → IsOpen (ask k))
      → (k : ℕ) → attempt ≤ k
      → k < n
      → IsOpen (ask k)
  extend attempt n first more k low high = elim (split_le attempt k low) [
    | inl e ↦ subst (λ j. IsOpen (ask j)) e first
    | inr above ↦ more k above high
  ]

  Settled : ℕ → ℕ → Result PendingTransactionError TransactionInfo → Type 0
  Settled attempt end r =
      ((n : ℕ) × (n < end) × DecidedAt ask attempt n r) ⊎ TimedOut ask attempt end r

  go_on :
      (attempt end : ℕ) (r : Result PendingTransactionError TransactionInfo)
      → IsOpen (ask attempt)
      → Settled (attempt + 1) end r
      → Settled attempt end r
  unfolding Settled
  go_on attempt end r first (inl (n, in_time, (low, opened, how))) =
      inl (n, in_time, (omega arith, extend attempt n first opened, how))
  go_on attempt end r first (inr (opened, how)) = inr (extend attempt end first opened, how)

  round :
      (attempt end : ℕ) (rest : Option RpcError → Result PendingTransactionError TransactionInfo)
      (last_error : Option RpcError) (answer : Result RpcError (Option TransactionInfo))
      → attempt < end
      → ask attempt ≡ answer
      → ((o : Option RpcError) → Settled (attempt + 1) end (rest o))
      → Settled attempt end (poll_round rest last_error answer)
  unfolding poll_round Settled
  round attempt end rest last_error (ok (some info)) h e more =
      inl (attempt, h, (omega arith, λ k a b. absurd (omega arith), inl (info, e, refl)))
  round attempt end rest last_error (ok none) h e more =
      go_on attempt end _ (subst IsOpen (sym e) tt) (more last_error)
  round attempt end rest last_error (err x) h e more = elim (Bool-cases (is_worth_reasking x)) [
    | inl again ↦ rw again (go_on attempt end _ (subst IsOpen (sym e) again) (more (some x)))
    | inr final ↦
        inl (attempt, h, (omega arith, λ k a b. absurd (omega arith), inr (x, e, final, rw final)))
  ]

  wait_from-Settled :
      (left attempt end : ℕ) (last_error : Option RpcError)
      → attempt + left ≡ end
      → Settled attempt end (wait_from ask attempt left last_error)
  unfolding wait_from Settled
  wait_from-Settled zero attempt end last_error h =
      inr (λ k a b. absurd (omega arith), (last_error, refl))
  wait_from-Settled (suc left) attempt end last_error h =
      round attempt end (wait_from ask (attempt + 1) left) last_error (ask attempt) (omega arith)
        refl (λ o. wait_from-Settled left (attempt + 1) end o (omega arith))

  -- Waiting answers by the first answer of the node that settles it, a receipt or a failure that is
  -- not worth asking again, if one of the attempts brings it; and otherwise it times out.
  pub wait_for_transaction_with-settles :
      (max_attempts : ℕ)
      → ((n : ℕ) × (n < max_attempts)
          × DecidedAt ask 0 n (wait_for_transaction_with ask max_attempts))
        ⊎ TimedOut ask 0 max_attempts (wait_for_transaction_with ask max_attempts)
  unfolding wait_for_transaction_with Settled
  wait_for_transaction_with-settles max_attempts =
      wait_from-Settled max_attempts 0 max_attempts none (omega arith)

-- The reason of the last of the first `n` answers that failed.
abbrev pub failure_or : Result RpcError (Option TransactionInfo) → Option RpcError → Option RpcError
failure_or (err e) before = some e
failure_or (ok o) before = before

pub last_failure : Answers → ℕ → Option RpcError
last_failure ask zero = none
last_failure ask (suc n) = failure_or (ask n) (last_failure ask n)

module _ (ask : Answers) where
  last_failure-step : (n : ℕ) → last_failure ask (n + 1) ≡ failure_or (ask n) (last_failure ask n)
  unfolding last_failure
  last_failure-step n = ap (last_failure ask) one_more
    where
      one_more : n + 1 ≡ suc n
      one_more = omega arith

  poll_round-open :
      (rest : Option RpcError → Result PendingTransactionError TransactionInfo)
      (last_error : Option RpcError) (answer : Result RpcError (Option TransactionInfo))
      → IsOpen answer
      → poll_round rest last_error answer ≡ rest (failure_or answer last_error)
  unfolding poll_round
  poll_round-open rest last_error (ok none) opened = refl
  poll_round-open rest last_error (ok (some info)) opened = elim opened [ ]
  poll_round-open rest last_error (err e) opened = rw opened refl

  wait_from-times_out :
      (left attempt end : ℕ)
      → attempt + left ≡ end
      → ((k : ℕ) → k < end → IsOpen (ask k))
      → wait_from ask attempt left (last_failure ask attempt)
        ≡ err (confirmation_timeout (last_failure ask end))
  unfolding wait_from
  wait_from-times_out zero attempt end h opened =
      ap (λ n. err (confirmation_timeout (last_failure ask n))) (omega arith)
  wait_from-times_out (suc left) attempt end h opened =
      poll_round-open (wait_from ask (attempt + 1) left) (last_failure ask attempt) (ask attempt)
        (opened attempt (omega arith))
      ∙ ap (wait_from ask (attempt + 1) left) (sym (last_failure-step attempt))
      ∙ wait_from-times_out left (attempt + 1) end (omega arith) opened

  -- Where no answer settles the wait in time, `get_receipt` times out, success required or not: the
  -- timeout carries the reason of the last answer that failed, and none if every answer was that
  -- the transaction is not known yet.
  pub get_receipt-times_out :
      (require_success : Bool) (attempts : ℕ)
      → ((k : ℕ) → k < attempts → IsOpen (ask k))
      → get_receipt require_success ask attempts
        ≡ err (confirmation_timeout (last_failure ask attempts))
  unfolding get_receipt last_failure
  get_receipt-times_out require_success attempts opened =
      rw (wait_from-times_out attempts 0 attempts (omega arith) opened) refl
