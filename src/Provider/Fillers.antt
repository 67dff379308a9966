-- ===== src/Provider/Fillers.antt =====
-- crates/provider/src/fillers/mod.rs: the fillers of a request. The caches and flags of a chain are one
-- state, which a step passes on with the list of the calls it made, the latest first. The node is
-- a record of its answers and of the times before and after it was asked.
pub mod Tapos
pub mod Energy
pub mod Keeps
mod Tests
use tronz.Prelude.{
  ℕ, ◌+◌, ◌-◌, ◌*◌, ◌/◌, ◌%◌, ◌^◌, ◌≡◌, Bool, true, false, not, ◌&&◌, ◌||◌, Option, none, some,
  List, [], ◌∷◌, Bytes, Result, ok, err, map_err, ltb, leb, ◌==◌, if◌then◌else◌,
}
use tronz.Prelude.Int.{wrap_i64, ℤ, pos, negsuc, ◌+ℤ◌, ltb_ℤ}
use tronz.Primitives.Amount.{Trx, from_sun}
use tronz.RpcTypes.Payloads.Contracts.{TriggerSmartContract}
use tronz.RpcTypes.Contract.{ContractType, trigger_smart_contract}
use tronz.RpcTypes.Block.{BlockInfo, ref_block_bytes, ref_block_hash}
use tronz.RpcTypes.Transaction.{TransactionRequest, contract_needs_fee_limit, given}
use tronz.Provider.Error.{
  RpcError, transport, node_failed, local_usage, unsupported, mispriced, bad_amount,
  inverted_bounds, as_transport_err, TransportErrorKind,
}

pub data Asked : Type 0 where
  now_block energy_price_list estimate constant_call : Asked

pub record State : Type 0 where
  pub cached : Option (BlockInfo × ℕ)
  pub price : Option (ℤ × ℕ)
  pub node_will_not_estimate : Bool
  pub log : List Asked

pub record ConstantCallResult : Type 0 where
  pub energy_used : ℤ
  pub revert_reason : Option Bytes

pub record Node : Type 0 where
  pub now : ℕ
  pub later : ℕ
  pub get_now_block : Result RpcError BlockInfo
  pub get_energy_price : Result RpcError ℤ
  pub estimate_energy : TriggerSmartContract → Result RpcError ℤ
  pub call_contract : TriggerSmartContract → Result RpcError ConstantCallResult

-- A step of a filler.
abbrev pub Step : Type 0 → Type 0
Step A = State × Result RpcError A

pub record TxFiller : Type 0 where
  pub fill_sync : TransactionRequest → TransactionRequest
  pub fill : Node → TransactionRequest → State → Step TransactionRequest

abbrev pub identity : TxFiller
identity = record { fill_sync = λ tx. tx; fill = λ node tx s. (s, ok tx) }

-- `?` on a step.
abbrev pub and_then : {A B : Type 0} → State → Result RpcError A → (A → State → Step B) → Step B
and_then s (ok a) f = f a s
and_then s (err e) f = (s, err e)

unfoldable pub join_fill : TxFiller → TxFiller → TxFiller
join_fill left right = record {
  fill_sync = λ tx. right.fill_sync (left.fill_sync tx);
  fill = λ node tx s. let first = left.fill node tx s in and_then first.0 first.1 (right.fill node);
}

-- The entry of a cache that is younger than its time to live.
abbrev pub fresh : {A : Type 0} → ℕ → ℕ → Option (A × ℕ) → Option A
fresh now ttl none = none
fresh now ttl (some (a, at)) = if ltb (now - at) ttl then some a else none

module _ (expiry_secs block_ttl : ℕ) where
  abbrev pub fetched_block : Node → State → Result RpcError BlockInfo → Step BlockInfo
  fetched_block node s (ok b) =
      (record s { cached = some (b, node.later); log = now_block ∷ s.log }, ok b)
  fetched_block node s (err e) = (record s { log = now_block ∷ s.log }, err e)

  abbrev pub block_or_fetch : Node → State → Option BlockInfo → Step BlockInfo
  block_or_fetch node s (some b) = (s, ok b)
  block_or_fetch node s none = fetched_block node s node.get_now_block

  abbrev pub with_tapos : BlockInfo → TransactionRequest → TransactionRequest
  with_tapos b tx = record tx {
    ref_block_bytes = some (ref_block_bytes b);
    ref_block_hash = some (ref_block_hash b);
    timestamp = some b.timestamp;
    expiration = some (wrap_i64 (b.timestamp +ℤ wrap_i64 (pos (expiry_secs * 1000))));
  }

  pub tapos_fill : Node → TransactionRequest → State → Step TransactionRequest
  tapos_fill node tx s =
      if given tx.ref_block_bytes
      then (s, ok tx)
      else (let block = block_or_fetch node s (fresh node.now block_ttl s.cached) in
          and_then block.0 block.1 (λ b s'. (s', ok (with_tapos b tx))))

unfoldable pub fee_limit_sync : Trx → TransactionRequest → TransactionRequest
fee_limit_sync default tx =
    if not (given tx.fee_limit) && contract_needs_fee_limit tx
    then record tx { fee_limit = some default }
    else tx

pub data OnEstimateFailure : Type 0 where
  fail use_fallback : OnEstimateFailure

pub record EnergyFiller : Type 0 where
  pub margin_percent : ℕ
  pub min : Trx
  pub max : Trx
  pub fallback : Trx
  pub on_failure : OnEstimateFailure
  pub price_ttl : ℕ

abbrev pub is_unsupported_kind : Option TransportErrorKind → Bool
is_unsupported_kind (some (unsupported m)) = true
is_unsupported_kind o = false

abbrev pub i128_max : ℕ
i128_max = 170_141_183_460_469_231_731_687_303_715_884_105_727

-- `checked_mul` on an `i128`, of numbers that are not negative.
abbrev pub checked_mul : ℕ → ℕ → Option ℕ
checked_mul a b = if leb (a * b) i128_max then some (a * b) else none

abbrev pub and_mul : Option ℕ → ℕ → Option ℕ
and_mul none b = none
and_mul (some a) b = checked_mul a b

-- The product of energy, price and scale.
pub cost : ℕ → ℤ → ℤ → Option ℕ
cost scale (pos energy) (pos price) = and_mul (checked_mul energy price) scale
cost scale energy price = none

-- `Ord::clamp`, of a number that is not negative.
abbrev pub clamp : ℤ → ℤ → ℕ → ℤ
clamp low high n = if ltb_ℤ (pos n) low then low else if ltb_ℤ high (pos n) then high else pos n

-- `try_with_bounds`, without the message.
pub try_with_bounds : EnergyFiller → Trx → Trx → Result RpcError EnergyFiller
try_with_bounds f low high =
    if ltb_ℤ high.sun low.sun
    then err (local_usage inverted_bounds)
    else ok (record f { min = low; max = high })

module _ (f : EnergyFiller) where
  abbrev pub fetched_price : Node → State → Result RpcError ℤ → Step ℤ
  fetched_price node s (ok p) =
      (record s { price = some (p, node.later); log = energy_price_list ∷ s.log }, ok p)
  fetched_price node s (err e) = (record s { log = energy_price_list ∷ s.log }, err e)

  abbrev pub price_or_fetch : Node → State → Option ℤ → Step ℤ
  price_or_fetch node s (some p) = (s, ok p)
  price_or_fetch node s none = fetched_price node s node.get_energy_price

  pub energy_price : Node → State → Step ℤ
  energy_price node s = price_or_fetch node s (fresh node.now f.price_ttl s.price)

-- The energy of a read-only call, unless it reverts.
abbrev pub energy_of_run : Option Bytes → ℤ → Result RpcError ℤ
energy_of_run none energy = ok energy
energy_of_run (some reason) energy = err (node_failed reason)

abbrev pub energy_of_call : Result RpcError ConstantCallResult → Result RpcError ℤ
energy_of_call (ok r) = energy_of_run r.revert_reason r.energy_used
energy_of_call (err e) = err e

abbrev pub by_call : Node → TriggerSmartContract → State → Step ℤ
by_call node call s =
    (record s { log = constant_call ∷ s.log }, energy_of_call (node.call_contract call))

abbrev pub by_estimate : Node → TriggerSmartContract → State → Result RpcError ℤ → Step ℤ
by_estimate node call s (ok energy) = (record s { log = estimate ∷ s.log }, ok energy)
by_estimate node call s (err e) = by_call node call (record s {
  log = estimate ∷ s.log;
  node_will_not_estimate = is_unsupported_kind (as_transport_err e);
})

pub energy_needed : Node → TriggerSmartContract → State → Step ℤ
unfolding as_transport_err
energy_needed node call s =
    if s.node_will_not_estimate
    then by_call node call s
    else by_estimate node call s (node.estimate_energy call)

module _ (f : EnergyFiller) where
  abbrev pub limit_of : ℤ → ℤ → Option ℕ → Result RpcError Trx
  limit_of energy price none = err (transport (mispriced energy price))
  limit_of energy price (some sun) =
      map_err (λ _. local_usage bad_amount) (from_sun (clamp f.min.sun f.max.sun (sun / 100)))

  pub estimate_limit : Node → TriggerSmartContract → State → Step Trx
  unfolding energy_needed energy_price cost
  estimate_limit node call s =
      let needed = energy_needed node call s in
      and_then needed.0 needed.1 (λ energy s1.
        let priced = energy_price f node s1 in
        and_then priced.0 priced.1
          (λ price s2. (s2, limit_of energy price (cost (100 + f.margin_percent) energy price))))

  abbrev pub on_failed : OnEstimateFailure → RpcError → Result RpcError Trx
  on_failed fail e = err e
  on_failed use_fallback e = ok f.fallback

  abbrev pub settled : Result RpcError Trx → Result RpcError Trx
  settled (ok limit) = ok limit
  settled (err e) = on_failed f.on_failure e

  abbrev pub with_limit : TransactionRequest → Trx → TransactionRequest
  with_limit tx limit = record tx { fee_limit = some limit }

  abbrev pub fill_contract :
      Node → TransactionRequest → State → Option ContractType → Step TransactionRequest
  fill_contract node tx s (some (trigger_smart_contract call)) =
      let limit = estimate_limit node call s in
      and_then limit.0 (settled limit.1) (λ l s'. (s', ok (with_limit tx l)))
  fill_contract node tx s c = (s, ok (with_limit tx f.fallback))

  pub energy_fill : Node → TransactionRequest → State → Step TransactionRequest
  energy_fill node tx s =
      if given tx.fee_limit || not (contract_needs_fee_limit tx)
      then (s, ok tx)
      else fill_contract node tx s tx.contract
