-- ===== src/RpcTypes/Receipts/Verdict.antt =====
-- The verdict on a transaction.
use tronz.Prelude.{
  ◌≡◌, ◌⊎◌, ◌↔◌, inl, inr, refl, sym, ap, ◌∙◌, subst, true, false, some, Bytes, length, ok,
  Pairwise, bind_ok_then, ok-injective, some-injective, arith, if-cases, Bool-cases,
}
use tronz.Prelude.Int.{ℤ, pos, negsuc, eqb_ℤ}
use tronz.RpcTypes.Wire.{malformed, txid_length}
use tronz.RpcTypes.Block.{is_empty}
use tronz.RpcTypes.Answers.{collect_results}
use tronz.RpcTypes.Receipts.Reading.{
  collect_results-Pairwise, LogRead, CallRead, log_from_proto-LogRead,
  internal_transaction_from_proto-CallRead,
}
use tronz.RpcTypes.Receipts.{
  TransactionInfo, TransactionInfoMessage, is_success, is_failure, is_succeeded, status_of,
  contract_result_of, or_default, exactly_32, log_from_proto, internal_transaction_from_proto,
  converted_info, transaction_info_from_proto,
}

-- A receipt with this code is no failure: the default, and success.
abbrev pub IsGood : ℤ → Type 0
IsGood i = (i ≡ pos 0) ⊎ (i ≡ pos 1)

is_failure-contract_result_of : (i : ℤ) → (is_failure (contract_result_of i) ≡ false) ↔ IsGood i
unfolding contract_result_of
is_failure-contract_result_of (negsuc n) = ground arith
is_failure-contract_result_of (pos n) = ground arith

is_succeeded-status_of :
    (outcome code : ℤ)
    → (is_succeeded (status_of outcome (contract_result_of code)) ≡ true)
      ↔ ((outcome ≡ pos 0) × IsGood code)
is_succeeded-status_of outcome code =
    let good = is_failure-contract_result_of code in
    elim (Bool-cases (eqb_ℤ outcome (pos 0))) [
      | inl zero_code ↦ elim (Bool-cases (is_failure (contract_result_of code))) [
        | inl bad ↦ rw (zero_code, bad) (λ h. cc, λ (_, h). absurd (cc (bad, good.1 h)))
        | inr fine ↦ rw (zero_code, fine) (λ h. (ground (arith, zero_code), good.0 fine), λ h. refl)
      ]
      | inr other_code ↦ rw other_code (λ h. cc, λ (h, _). ground (arith, other_code, h))
    ]

module _ (lossy : Bytes → Bytes) where
  -- A transaction that is reported has the id of the answer, which has 32 bytes, and succeeded exactly if
  -- both the code of the transaction is zero and that of its receipt, if there is one, is the default or
  -- success. Every log and every internal call of the answer is reported, in order and field by field: the
  -- addresses are those that were sent, a topic or a hash has 32 bytes, and a party of a call is there
  -- exactly if its bytes are an address.
  pub transaction_info_from_proto-verdict :
      (raw : TransactionInfoMessage) (info : TransactionInfo)
      → transaction_info_from_proto lossy raw ≡ ok (some info)
      → (info.tx_id ≡ raw.id)
        × (length raw.id ≡ 32)
        × ((is_success info ≡ true)
            ↔ ((raw.outcome ≡ pos 0) × IsGood (or_default raw.receipt).outcome))
        × Pairwise LogRead raw.log info.logs
        × Pairwise (CallRead lossy) raw.internal_transactions info.internal_transactions
  unfolding transaction_info_from_proto
  transaction_info_from_proto-verdict raw info h = elim (if-cases (is_empty raw.id) _ _ h) [
    | inl absent ↦ cc
    | inr there ↦ bind_ok_then (converted_info lossy raw) _ there λ i converted done.
        bind_ok_then (exactly_32 raw.id (malformed txid_length)) _ converted λ tx_id sized h1.
          bind_ok_then (collect_results log_from_proto raw.log) _ h1 λ logs read h2.
            bind_ok_then
              (collect_results (internal_transaction_from_proto lossy) raw.internal_transactions) _
              h2
              λ calls made h3.
                let same = ok-injective h3 ∙ some-injective (ok-injective done) in
                let (is_id, long) = sized_ok raw.id tx_id sized in
                (
                  ap (λ t. t.tx_id) (sym same) ∙ is_id,
                  long,
                  subst
                      (λ t.
                        (is_success t ≡ true)
                        ↔ ((raw.outcome ≡ pos 0) × IsGood (or_default raw.receipt).outcome))
                      same (is_succeeded-status_of raw.outcome (or_default raw.receipt).outcome),
                  subst (λ (t : TransactionInfo). Pairwise LogRead raw.log t.logs) same
                      (collect_results-Pairwise LogRead log_from_proto raw.log logs
                        log_from_proto-LogRead read),
                  subst
                      (λ (t : TransactionInfo).
                        Pairwise (CallRead lossy) raw.internal_transactions t.internal_transactions)
                      same
                      (collect_results-Pairwise (CallRead lossy)
                        (internal_transaction_from_proto lossy) raw.internal_transactions calls
                        (internal_transaction_from_proto-CallRead lossy) made),
                )
  ]
    where
      sized_ok :
          (bytes id : Bytes)
          → exactly_32 bytes (malformed txid_length) ≡ ok id
          → (id ≡ bytes) × (length bytes ≡ 32)
      sized_ok bytes id r = ground arith
