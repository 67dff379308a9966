-- ===== src/Provider/Fillers/Energy.antt =====
-- The fee limit of a contract call: its bounds, and when a guess is used.
use tronz.Prelude.{
  ℕ, ◌+◌, ◌*◌, ◌/◌, ◌≡◌, ◌⊎◌, ◌↔◌, inl, inr, true, Option, none, some, ◌∷◌, Bytes, Result, ok, err,
  arith, refl, ap, sym, ◌∙◌, Result-cases,
}
use tronz.Prelude.Int.{ℤ, pos, negsuc, ◌≤ℤ◌}
use tronz.Primitives.Amount.{Trx, from_sun}
use tronz.RpcTypes.Payloads.Contracts.{TriggerSmartContract}
use tronz.RpcTypes.Contract.{trigger_smart_contract, needs_fee_limit}
use tronz.RpcTypes.Transaction.{TransactionRequest}
use tronz.Provider.Error.{RpcError, transport, unsupported, as_transport_err}
use tronz.Provider.Fillers.{
  Node, State, Step, and_then, EnergyFiller, energy_needed, energy_price, estimate_limit,
  energy_fill, limit_of, cost, fail, clamp, constant_call,
}

limit_of-bounds :
    (f : EnergyFiller) (energy price : ℤ) (t : Trx) (n : ℕ)
    → f.min.sun ≤ℤ f.max.sun
    → limit_of f energy price (some n) ≡ ok t
    → (f.min.sun ≤ℤ t.sun) × (t.sun ≤ℤ f.max.sun)
unfolding from_sun
limit_of-bounds f energy price t n h e = ground arith

-- The node is written off exactly by an answer that says it does not serve the call; once it is, an
-- estimate costs one read-only call.
pub energy_needed-flag :
    (node : Node) (call : TriggerSmartContract) (s : State)
    → (((energy_needed node call s).0.node_will_not_estimate ≡ true) ↔ (
        (s.node_will_not_estimate ≡ true)
        ⊎ ((m : Bytes) × (node.estimate_energy call ≡ err (transport (unsupported m))))))
      × (s.node_will_not_estimate ≡ true
          → (energy_needed node call s).0.log ≡ constant_call ∷ s.log)
unfolding energy_needed as_transport_err
energy_needed-flag node call s = (ground arith, λ h. ground arith)

cost-exact :
    (scale energy price n : ℕ)
    → cost scale (pos energy) (pos price) ≡ some n
    → n ≡ energy * price * scale
unfolding cost
cost-exact scale energy price n h = ground arith

cost-signs :
    (scale : ℕ) (energy price : ℤ) (n : ℕ)
    → cost scale energy price ≡ some n
    → (e : ℕ) × (p : ℕ) × (energy ≡ pos e) × (price ≡ pos p) × (n ≡ e * p * scale)
unfolding cost
cost-signs scale (pos e) (pos p) n h = (e, p, refl, refl, cost-exact scale e p n h)
cost-signs scale (pos e) (negsuc p) n h = cc
cost-signs scale (negsuc e) price n h = cc

limit_of-value :
    (f : EnergyFiller) (energy price : ℤ) (o : Option ℕ) (t : Trx)
    → limit_of f energy price o ≡ ok t
    → (n : ℕ) × (o ≡ some n) × (t.sun ≡ clamp f.min.sun f.max.sun (n / 100))
unfolding from_sun
limit_of-value f energy price none t h = cc
limit_of-value f energy price (some n) t h = (n, refl, ground arith)

and_then-ok :
    {A B C : Type 0} (s : State) (r : Result RpcError A) (g : A → State → Step B) {s' : State}
    {b : B}
    → and_then s r g ≡ (s', ok b)
    → ((a : A) → r ≡ ok a → g a s ≡ (s', ok b) → C)
    → C
and_then-ok s (ok a) g h k = k a refl h
and_then-ok s (err e) g h k = cc

-- The limit that a call is sent with, where nothing is guessed: it stands in the bounds, and
-- it is the cost of the energy at the price with the margin, brought into them.
pub estimate_limit-clamped :
    (f : EnergyFiller) (node : Node) (call : TriggerSmartContract) (s s' : State) (t : Trx)
    → f.min.sun ≤ℤ f.max.sun
    → estimate_limit f node call s ≡ (s', ok t)
    → (f.min.sun ≤ℤ t.sun)
      × (t.sun ≤ℤ f.max.sun)
      × ((e : ℕ) × (p : ℕ) × (t.sun
            ≡ clamp f.min.sun f.max.sun (e * p * (100 + f.margin_percent) / 100))
          × ((energy_needed node call s).1 ≡ ok (pos e))
          × ((energy_price f node (energy_needed node call s).0).1 ≡ ok (pos p)))
unfolding estimate_limit
estimate_limit-clamped f node call s s' t h done =
    let needed = energy_needed node call s in
    and_then-ok needed.0 needed.1 _ done λ energy got done1.
      let priced = energy_price f node needed.0 in
      and_then-ok priced.0 priced.1 _ done1 λ price paid done2.
        let made = ap (λ p. p.1) done2 in
        let (n, cost_is, value) = limit_of-value f energy price _ t made in
        let (e, p, is_e, is_p, product) =
          cost-signs (100 + f.margin_percent) energy price n cost_is in
        let (low, high) =
          limit_of-bounds f energy price t n h
            (ap (limit_of f energy price) (sym cost_is) ∙ made) in
        (
          low,
          high,
          (
            e,
            p,
            value ∙ ap (λ k. clamp f.min.sun f.max.sun (k / 100)) product,
            got ∙ ap ok is_e,
            paid ∙ ap ok is_p,
          ),
        )

-- By default a call that has no limit is never sent on a guess: where it is filled at all, an estimate
-- succeeded and gave the limit.
pub energy_fill-no_guess :
    (f : EnergyFiller) (node : Node) (call : TriggerSmartContract) (tx tx' : TransactionRequest)
    (s s' : State)
    → f.on_failure ≡ fail
    → tx.fee_limit ≡ none
    → tx.contract ≡ some (trigger_smart_contract call)
    → energy_fill f node tx s ≡ (s', ok tx')
    → (t : Trx) × ((estimate_limit f node call s).1 ≡ ok t)
      × (tx' ≡ record tx { fee_limit = some t })
unfolding energy_fill needs_fee_limit
energy_fill-no_guess f node call tx tx' s s' hf hl hc e =
    elim (Result-cases (estimate_limit f node call s).1) [
      | inl (t, made) ↦ (t, made, ground arith)
      | inr (x, lost) ↦ ground arith
    ]
