-- ===== src/Provider/Fillers/Tests.antt =====
-- Runs of the fillers at concrete inputs.
use tronz.Prelude.{
  ℕ, ◌+◌, ◌*◌, ◌/◌, ◌≡◌, ◌⊎◌, ◌↔◌, refl, true, false, none, some, [], ◌∷◌, Bytes, replicate, arith,
  ok, err,
}
use tronz.Prelude.Int.{pos, ◌≤ℤ◌}
use tronz.Primitives.Address.{address_zero}
use tronz.Primitives.Amount.{Trx, from_sun, trx_zero}
use tronz.RpcTypes.Block.{BlockInfo}
use tronz.RpcTypes.Payloads.Contracts.{TriggerSmartContract}
use tronz.RpcTypes.Contract.{trigger_smart_contract, needs_fee_limit}
use tronz.RpcTypes.Transaction.{TransactionRequest}
use tronz.Provider.Error.{transport, unsupported, as_transport_err}
use tronz.Provider.Fillers.{
  Node, State, EnergyFiller, now_block, fail, tapos_fill, with_tapos, energy_needed, energy_price,
  estimate_limit, energy_fill, cost, clamp,
}
use tronz.Provider.Fillers.Energy.{energy_needed-flag, estimate_limit-clamped, energy_fill-no_guess}

abbrev block : BlockInfo
block = record {
  number = pos 70_000;
  hash = replicate 32 6;
  timestamp = pos 5;
  parent_hash = none;
  tx_trie_root = none;
  witness = none;
  version = none;
}

-- A node that does not serve `EstimateEnergy`.
abbrev node : Node
node = record {
  now = 100;
  later = 101;
  get_now_block = ok block;
  get_energy_price = ok (pos 420);
  estimate_energy = λ c. err (transport (unsupported []));
  call_contract = λ c. ok (record { energy_used = pos 1_000; revert_reason = none });
}

abbrev start : State
start = record { cached = none; price = none; node_will_not_estimate = false; log = [] }

abbrev call : TriggerSmartContract
call = record {
  owner_address = address_zero;
  contract_address = address_zero;
  call_value = trx_zero;
  call_data = [];
  call_token_value = trx_zero;
  token_id = pos 0;
}

abbrev request : TransactionRequest
request = record {
  contract = some (trigger_smart_contract call);
  fee_limit = none;
  memo = none;
  permission_id = none;
  ref_block_bytes = none;
  ref_block_hash = none;
  expiration = none;
  timestamp = none;
}

abbrev after_block : State
after_block = record {
  cached = some (block, 101);
  price = none;
  node_will_not_estimate = false;
  log = now_block ∷ [];
}

tapos_run : tapos_fill 300 3 node request start ≡ (after_block, ok (with_tapos 300 3 block request))
unfolding tapos_fill
tapos_run = refl

abbrev filler : EnergyFiller
filler = record {
  margin_percent = 20;
  min = trx_zero;
  max = record { sun = pos 1_000_000_000 };
  fallback = record { sun = pos 20_000_000 };
  on_failure = fail;
  price_ttl = 300;
}

abbrev limit : Trx
limit = record { sun = pos 504_000 }

abbrev after_limit : State
after_limit = (estimate_limit filler node call start).0

limit_run : estimate_limit filler node call start ≡ (after_limit, ok limit)
unfolding estimate_limit energy_needed energy_price cost from_sun as_transport_err
limit_run = refl

energy_needed-flag_example : ((energy_needed node call start).0.node_will_not_estimate ≡ true) ↔ (
    (start.node_will_not_estimate ≡ true)
    ⊎ ((m : Bytes) × (node.estimate_energy call ≡ err (transport (unsupported m)))))
energy_needed-flag_example = (energy_needed-flag node call start).0

estimate_limit-clamped_example :
    (filler.min.sun ≤ℤ limit.sun)
    × (limit.sun ≤ℤ filler.max.sun)
    × ((e : ℕ) × (p : ℕ) × (limit.sun
          ≡ clamp filler.min.sun filler.max.sun (e * p * (100 + 20) / 100))
        × ((energy_needed node call start).1 ≡ ok (pos e))
        × ((energy_price filler node (energy_needed node call start).0).1 ≡ ok (pos p)))
estimate_limit-clamped_example =
    estimate_limit-clamped filler node call start after_limit limit (omega arith) limit_run

abbrev after_fill : State
after_fill = (energy_fill filler node request start).0

fill_run :
    energy_fill filler node request start
    ≡ (after_fill, ok (record request { fee_limit = some limit }))
unfolding energy_fill estimate_limit energy_needed energy_price cost from_sun as_transport_err
    needs_fee_limit
fill_run = refl

energy_fill-no_guess_example :
    (t : Trx) × ((estimate_limit filler node call start).1 ≡ ok t)
    × (record request { fee_limit = some limit } ≡ record request { fee_limit = some t })
energy_fill-no_guess_example =
    energy_fill-no_guess filler node call request (record request { fee_limit = some limit }) start
      after_fill refl refl refl fill_run
