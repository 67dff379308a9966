-- ===== src/RpcTypes/Receipts/Reading.antt =====
-- What the logs and the internal calls of a receipt are read as.
use tronz.Prelude.{
  ◌≡◌, ◌≢◌, ◌⊎◌, ◌↔◌, inl, inr, refl, sym, ap, ◌∙◌, subst, Option, some, List, [], ◌∷◌, Bytes,
  length, replicate, Result, ok, Pairwise, map-Pairwise, bind_ok_then, ok-injective, some-injective,
  ==_iff, Bool-cases, Result-cases, ◌==◌, arith,
}
use tronz.Primitives.Address.{Address, IsAddress, from_slice, from_evm_bytes, address_prefix}
use tronz.Primitives.Address.Slices.{from_slice_iff}
use tronz.Primitives.Log.{Log}
use tronz.RpcTypes.Wire.{ResponseError, malformed, hash_length_of_call}
use tronz.RpcTypes.Answers.{opt_addr, log_addr, b256, collect_results}
use tronz.RpcTypes.Answers.Addresses.{addr_iff}
use tronz.RpcTypes.Receipts.{
  LogMessage, CallValueMessage, CallValue, InternalTransactionMessage, InternalTransaction,
  log_from_proto, internal_transaction_from_proto, call_value_from_proto, exactly_32,
}

pub collect_results-Pairwise :
    {A B : Type 0} (R : A → B → Type 0) (f : A → Result ResponseError B) (xs : List A) (ys : List B)
    → ((x : A) (y : B) → f x ≡ ok y → R x y)
    → collect_results f xs ≡ ok ys
    → Pairwise R xs ys
unfolding collect_results
collect_results-Pairwise R f [] ys each h = subst (Pairwise R []) (ok-injective h) tt
collect_results-Pairwise R f (x ∷ xs) ys each h = bind_ok_then (f x) _ h λ y first h1.
    bind_ok_then (collect_results f xs) _ h1 λ more rest h2.
      subst (Pairwise R (x ∷ xs)) (ok-injective h2)
        (each x y first, collect_results-Pairwise R f xs more each rest)

-- A topic of 32 bytes is kept, and any other is all zeros.
abbrev pub TopicRead : Bytes → Bytes → Type 0
TopicRead sent topic =
    ((length sent ≡ 32) × (topic ≡ sent)) ⊎ ((length sent ≢ 32) × (topic ≡ replicate 32 0))

-- An address of a log is sent whole, or as its 20 bytes without the prefix.
abbrev pub LogAddress : Bytes → Address → Type 0
LogAddress sent a =
    ((length sent ≡ 20) × (a.bytes ≡ address_prefix ∷ sent)) ⊎ ((a.bytes ≡ sent) × IsAddress a)

abbrev pub LogRead : LogMessage → Log → Type 0
LogRead sent log =
    LogAddress sent.address log.address
    × Pairwise TopicRead sent.topics log.topics
    × (log.log_data ≡ sent.log_data)

-- A party is there exactly if its bytes are an address.
abbrev pub PartyRead : Bytes → Option Address → Type 0
PartyRead sent party = (a : Address) → (party ≡ some a) ↔ ((a.bytes ≡ sent) × IsAddress a)

abbrev pub CallValueRead : CallValueMessage → CallValue → Type 0
CallValueRead sent v = (v.amount ≡ sent.call_value) × (v.token_id ≡ sent.token_id)

abbrev pub CallRead : (Bytes → Bytes) → InternalTransactionMessage → InternalTransaction → Type 0
CallRead lossy sent call =
    (length sent.hash ≡ 32)
    × (call.hash ≡ sent.hash)
    × PartyRead sent.caller_address call.caller_address
    × PartyRead sent.transfer_to_address call.transfer_to_address
    × Pairwise CallValueRead sent.call_value_info call.call_values
    × (call.note ≡ lossy sent.note)
    × (call.rejected ≡ sent.rejected)
    × (call.extra ≡ sent.extra)

b256-TopicRead : (b : Bytes) → TopicRead b (b256 b)
unfolding b256
b256-TopicRead b = ground arith

log_addr-LogAddress : (b : Bytes) (a : Address) → log_addr b ≡ ok a → LogAddress b a
unfolding log_addr from_evm_bytes
log_addr-LogAddress b a h = elim (Bool-cases (length b == 20)) [
  | inl short ↦
      inl ((==_iff (length b) 20).0 short, ap (λ t. t.bytes) (sym (ok-injective (rw short at h))))
  | inr long ↦ let (is, well) = (addr_iff b a).0 (rw long at h) in inr (ap (λ t. t.bytes) is, well)
]

pub log_from_proto-LogRead :
    (l : LogMessage) (log : Log) → log_from_proto l ≡ ok log → LogRead l log
unfolding log_from_proto
log_from_proto-LogRead l log h = bind_ok_then (log_addr l.address) _ h λ a read made.
    subst (LogRead l) (ok-injective made) (
      log_addr-LogAddress l.address a read,
      map-Pairwise TopicRead b256 l.topics b256-TopicRead,
      refl,
    )

opt_addr-PartyRead : (b : Bytes) → PartyRead b (opt_addr b)
unfolding opt_addr
opt_addr-PartyRead [] a = (λ h. cc, λ (e, (long, _)). absurd (omega (arith, ap length e)))
opt_addr-PartyRead (x ∷ b) a = elim (Result-cases (from_slice (x ∷ b))) [
  | inl (a', read) ↦ rw read (
    λ h.
        let (is, well) = (from_slice_iff (x ∷ b) a).0 (read ∙ ap ok (some-injective h)) in
        (ap (λ t. t.bytes) is, well),
    λ (e, well). ap some (
        ok-injective
          (sym read ∙ (from_slice_iff (x ∷ b) a).1 (ap (λ t. record { bytes = t }) e, well))),
  )
  | inr (e, bad) ↦ rw bad (
    λ h. cc,
    λ (is, well).
        absurd (cc (bad, (from_slice_iff (x ∷ b) a).1 (ap (λ t. record { bytes = t }) is, well))),
  )
]

exactly_32_ok :
    (bytes id : Bytes) (e : ResponseError)
    → exactly_32 bytes e ≡ ok id
    → (id ≡ bytes) × (length bytes ≡ 32)
exactly_32_ok bytes id e r = ground arith

module _ (lossy : Bytes → Bytes) where
  pub internal_transaction_from_proto-CallRead :
      (tx : InternalTransactionMessage) (call : InternalTransaction)
      → internal_transaction_from_proto lossy tx ≡ ok call
      → CallRead lossy tx call
  unfolding internal_transaction_from_proto
  internal_transaction_from_proto-CallRead tx call h =
      bind_ok_then (exactly_32 tx.hash (malformed hash_length_of_call)) _ h λ hash sized made.
        let (is, long) = exactly_32_ok tx.hash hash _ sized in
        subst (CallRead lossy tx) (ok-injective made) (
          long,
          is,
          opt_addr-PartyRead tx.caller_address,
          opt_addr-PartyRead tx.transfer_to_address,
          map-Pairwise CallValueRead call_value_from_proto tx.call_value_info (λ v. (refl, refl)),
          refl,
          refl,
          refl,
        )
