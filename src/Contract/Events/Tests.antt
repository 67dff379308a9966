-- ===== src/Contract/Events/Tests.antt =====
-- Runs of crates/contract/src/event_filter.rs at concrete inputs.
use tronz.Prelude.{
  ℕ, ◌+◌, ◌-◌, ◌<◌, ◌≤◌, ◌≡◌, refl, sym, true, false, none, List, [], ◌∷◌, Bytes, ok, arith,
  replicate, ok-injective, ◌∙◌,
}
use tronz.Prelude.Int.{ℤ, pos, negsuc}
use tronz.Primitives.Address.{address_zero}
use tronz.Primitives.Log.{Log}
use tronz.Contract.Events.{
  SolEvent, Provider, EventWatcher, query_block, decode_infos, decode_logs, matches,
}
use tronz.Contract.Events.Cursor.{Stands, window, Honest, Serves}
use tronz.Contract.Events.Runs.{follow, follow-once, follow-catches_up, IsTruthful}

-- An anonymous event that is the data of its log.
abbrev any_log : SolEvent
any_log = record {
  Event = Bytes;
  signature_hash = [];
  anonymous = true;
  decode_raw_log = λ topics data_bytes. ok data_bytes;
}

-- Every block has one log, whose data is the number of the block.
abbrev chain : ℕ → List Bytes
chain n = (n ∷ []) ∷ []

abbrev log_of : ℤ → Log
log_of (pos n) = record { address = address_zero; topics = []; log_data = n ∷ [] }
log_of (negsuc n) = record { address = address_zero; topics = []; log_data = [] }

abbrev node : Provider
node = record {
  get_now_block = ok (pos 25);
  transaction_info = λ tx. ok none;
  transaction_infos_by_block = λ n. ok ((log_of n ∷ []) ∷ []);
}

-- Two blocks in a poll, and the usual confirmations.
abbrev watcher : EventWatcher
watcher = record {
  next_block = pos 3;
  confirmations = pos 19;
  max_blocks = pos 2;
  caught_up = false;
}

watcher-Stands : Stands watcher 3 19 2
watcher-Stands = record {
  next = refl;
  behind = refl;
  most = refl;
  some_blocks = omega arith;
  small = (omega arith, omega arith, omega arith);
}

node_answers : (n : ℕ) → query_block any_log none node (pos n) ≡ ok (chain n)
unfolding query_block decode_infos decode_logs matches
node_answers n = refl

node-Honest : Honest any_log none chain node
node-Honest n events h = sym (ok-injective (sym (node_answers n) ∙ h))

node-Serves : Serves any_log none node
node-Serves n = (chain n, node_answers n)

node-IsTruthful : IsTruthful any_log none chain node
node-IsTruthful = (node-Honest, λ z h. (25, sym (ok-injective h), omega arith))

follow-once_example :
    (n' : ℕ) × (3 ≤ n')
    × Stands (follow any_log none (node ∷ node ∷ []) watcher).0 n' 19 2
    × ((follow any_log none (node ∷ node ∷ []) watcher).1 ≡ window any_log none chain 3 (n' - 3))
follow-once_example =
    follow-once any_log none chain (node ∷ node ∷ []) watcher 3 19 2
      (node-IsTruthful, (node-IsTruthful, tt)) watcher-Stands

follow-catches_up_example :
    (n' : ℕ) × Stands (follow any_log none (replicate 2 node) watcher).0 n' 19 2
    × (25 < n' + 19)
    × ((follow any_log none (replicate 2 node) watcher).0.caught_up ≡ true)
follow-catches_up_example =
    follow-catches_up any_log none chain node 25 node-Honest node-Serves refl (omega arith) 2
      watcher 3 19 2 (omega arith) (omega arith) watcher-Stands
