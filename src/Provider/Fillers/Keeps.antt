-- ===== src/Provider/Fillers/Keeps.antt =====
-- The contract of a request, as the fillers pass it on.
use tronz.Prelude.{
  ℕ, ◌≡◌, refl, sym, ap, ◌∙◌, Bool, true, false, not, ◌&&◌, ◌||◌, Option, none, some, Result, ok,
  err, if◌then◌else◌, ok-injective,
}
use tronz.Primitives.Amount.{Trx}
use tronz.RpcTypes.Contract.{ContractType, trigger_smart_contract}
use tronz.RpcTypes.Transaction.{TransactionRequest, contract_needs_fee_limit, given}
use tronz.Provider.Error.{RpcError}
use tronz.Provider.Fillers.{
  TxFiller, Node, State, Step, and_then, identity, join_fill, tapos_fill, fee_limit_sync,
  energy_fill, EnergyFiller, estimate_limit, settled, fill_contract, with_tapos, fresh,
  block_or_fetch, with_limit,
}

-- A step that succeeds has kept the contract of the request.
abbrev pub Same : Option ContractType → Step TransactionRequest → Type 0
Same c r = (tx : TransactionRequest) → r.1 ≡ ok tx → tx.contract ≡ c

-- A filler that never touches the contract.
pub record Keeps (f : TxFiller) : Type 0 where
  pub sync : (tx : TransactionRequest) → (f.fill_sync tx).contract ≡ tx.contract
  pub async :
      (node : Node) (tx : TransactionRequest) (s : State) → Same tx.contract (f.fill node tx s)

done : (s : State) (tx : TransactionRequest) → Same tx.contract (s, ok tx)
done s tx tx' h = ap (λ t. t.contract) (sym (ok-injective h))

Same-and_then :
    {A : Type 0} (c : Option ContractType) (s : State) (r : Result RpcError A)
    (f : A → State → Step TransactionRequest)
    → ((a : A) (s' : State) → Same c (f a s'))
    → Same c (and_then s r f)
Same-and_then c s (ok a) f each = each a s
Same-and_then c s (err e) f each = λ tx h. cc

Same-if :
    (c : Option ContractType) (b : Bool) (x y : Step TransactionRequest)
    → Same c x
    → Same c y
    → Same c (if b then x else y)
Same-if c true x y hx hy = hx
Same-if c false x y hx hy = hy

pub Keeps-identity : Keeps identity
Keeps-identity = record { sync = λ tx. refl; async = λ node tx s. done s tx }

pub Keeps-join_fill :
    (left right : TxFiller) → Keeps left → Keeps right → Keeps (join_fill left right)
unfolding join_fill
Keeps-join_fill left right keeps_left keeps_right = record {
  sync = λ tx. keeps_right.sync (left.fill_sync tx) ∙ keeps_left.sync tx;
  async = λ node tx s tx' h. both node tx (left.fill node tx s) (keeps_left.async node tx s) tx' h;
}
  where
    both :
        (node : Node) (tx : TransactionRequest) (first : Step TransactionRequest)
        → Same tx.contract first
        → Same tx.contract (and_then first.0 first.1 (right.fill node))
    both node tx (s, err e) kept tx' h = cc
    both node tx (s, ok t) kept tx' h = keeps_right.async node t s tx' h ∙ kept t refl

abbrev pub tapos_filler : ℕ → ℕ → TxFiller
tapos_filler expiry ttl = record { fill_sync = λ tx. tx; fill = tapos_fill expiry ttl }

abbrev pub fee_limit_filler : Trx → TxFiller
fee_limit_filler default = record {
  fill_sync = fee_limit_sync default;
  fill = λ node tx s. (s, ok tx);
}

abbrev pub energy_filler : EnergyFiller → TxFiller
energy_filler f = record { fill_sync = λ tx. tx; fill = energy_fill f }

pub Keeps-tapos_filler : (expiry ttl : ℕ) → Keeps (tapos_filler expiry ttl)
unfolding tapos_fill
Keeps-tapos_filler expiry ttl = record {
  sync = λ tx. refl;
  async = λ node tx s.
      let block = block_or_fetch expiry ttl node s (fresh node.now ttl s.cached) in
      Same-if tx.contract (given tx.ref_block_bytes) (s, ok tx)
        (and_then block.0 block.1 (λ b s'. (s', ok (with_tapos expiry ttl b tx)))) (done s tx)
        (Same-and_then tx.contract block.0 block.1 _ λ b s'. done s' (with_tapos expiry ttl b tx));
}

pub Keeps-fee_limit_filler : (default : Trx) → Keeps (fee_limit_filler default)
unfolding fee_limit_sync
Keeps-fee_limit_filler default = record {
  sync = λ tx. either tx (not (given tx.fee_limit) && contract_needs_fee_limit tx);
  async = λ node tx s. done s tx;
}
  where
    either :
        (tx : TransactionRequest) (b : Bool)
        → (if b then record tx { fee_limit = some default } else tx).contract ≡ tx.contract
    either tx true = refl
    either tx false = refl

pub Keeps-energy_filler : (f : EnergyFiller) → Keeps (energy_filler f)
unfolding energy_fill
Keeps-energy_filler f = record {
  sync = λ tx. refl;
  async = λ node tx s.
      Same-if tx.contract (given tx.fee_limit || not (contract_needs_fee_limit tx)) (s, ok tx)
        (fill_contract f node tx s tx.contract) (done s tx) (filled node tx s tx.contract);
}
  where
    filled :
        (node : Node) (tx : TransactionRequest) (s : State) (c : Option ContractType)
        → Same tx.contract (fill_contract f node tx s c)
    filled node tx s none = done s (with_limit f tx f.fallback)
    filled node tx s (some (trigger_smart_contract call)) =
        let limit = estimate_limit f node call s in
        Same-and_then tx.contract limit.0 (settled f limit.1) _ λ l s'. done s' (with_limit f tx l)
    filled node tx s (some c) = done s (with_limit f tx f.fallback)
