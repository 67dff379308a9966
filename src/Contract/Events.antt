-- ===== src/Contract/Events.antt =====
-- crates/contract/src/event_filter.rs: queries for the events of a contract, and the watcher that follows
-- new blocks. The provider is a record of its answers; the decoding of an event is a parameter. Blocks
-- that are fetched concurrently are yielded in order, so a range is read block by block.
pub mod Cursor
pub mod Following
pub mod Runs
mod Tests
use tronz.Prelude.{
  ℕ, zero, suc, ◌+◌, ◌≡◌, Bool, true, false, ◌&&◌, ◌||◌, Option, none, some, List, [], ◌∷◌, ◌++◌,
  Bytes, Result, ok, err, ◌>>=◌, map_err, bytes_eq, if◌then◌else◌,
}
use tronz.Prelude.Int.{
  ℤ, pos, negsuc, pos_part, ◌+ℤ◌, ◌-ℤ◌, ltb_ℤ, leb_ℤ, eqb_ℤ, wrap_i64, i64_max, fits_i64,
}
use tronz.Primitives.Address.{Address}
use tronz.Primitives.Log.{Log}
use tronz.Provider.Error.{RpcError}

pub data ContractError : Type 0 where
  provider_error : RpcError → ContractError
  abi_error : Bytes → ContractError
  transaction_not_found : ContractError

-- `SolEvent`.
pub record SolEvent : Type 1 where
  pub Event : Type 0
  pub signature_hash : Bytes
  pub anonymous : Bool
  pub decode_raw_log : List Bytes → Bytes → Result Bytes Event

pub record Provider : Type 0 where
  pub get_now_block : Result RpcError ℤ
  pub transaction_info : Bytes → Result RpcError (Option (List Log))
  pub transaction_infos_by_block : ℤ → Result RpcError (List (List Log))

abbrev pub is_none_or : Option Address → Address → Bool
is_none_or none a = true
is_none_or (some b) a = bytes_eq a.bytes b.bytes

abbrev pub first_topic_is : List Bytes → Bytes → Bool
first_topic_is [] sig = false
first_topic_is (t ∷ ts) sig = bytes_eq t sig

module _ (e : SolEvent) (address : Option Address) where
  pub matches : Log → Bool
  matches log =
      is_none_or address log.address && (e.anonymous || first_topic_is log.topics e.signature_hash)

  pub decode_logs : List Log → Result ContractError (List e.Event)
  unfolding matches
  decode_logs [] = ok []
  decode_logs (log ∷ logs) =
      let rest = decode_logs logs in
      if matches log
      then (map_err abi_error (e.decode_raw_log log.topics log.log_data) >>= λ event.
          rest >>= λ events. ok (event ∷ events))
      else rest

  abbrev pub found_logs : Option (List Log) → Result ContractError (List Log)
  found_logs none = err transaction_not_found
  found_logs (some logs) = ok logs

  pub query_tx : Provider → Bytes → Result ContractError (List e.Event)
  unfolding decode_logs
  query_tx provider tx_id = do
    info ← map_err provider_error (provider.transaction_info tx_id)
    logs ← found_logs info
    decode_logs logs

  pub decode_infos : List (List Log) → Result ContractError (List e.Event)
  unfolding decode_logs
  decode_infos [] = ok []
  decode_infos (logs ∷ infos) = do
    events ← decode_logs logs
    rest ← decode_infos infos
    ok (events ++ rest)

  pub query_block : Provider → ℤ → Result ContractError (List e.Event)
  unfolding decode_infos
  query_block provider block =
      map_err provider_error (provider.transaction_infos_by_block block) >>= decode_infos

  -- The blocks of a range, of which `count` are left.
  pub query_blocks : Provider → ℤ → ℕ → Result ContractError (List e.Event)
  unfolding query_block
  query_blocks provider block zero = ok []
  query_blocks provider block (suc count) = do
    events ← query_block provider block
    rest ← query_blocks provider (block +ℤ pos 1) count
    ok (events ++ rest)

  pub query_range : Provider → ℤ → ℤ → Result ContractError (List e.Event)
  unfolding query_blocks
  query_range provider first last =
      if ltb_ℤ last first then ok [] else query_blocks provider first (pos_part (last -ℤ first) + 1)

pub record EventWatcher : Type 0 where
  pub next_block : ℤ
  pub confirmations : ℤ
  pub max_blocks : ℤ
  pub caught_up : Bool

pub watch_from : ℤ → EventWatcher
watch_from block = record {
  next_block = block;
  confirmations = pos 19;
  max_blocks = pos 1_000;
  caught_up = false;
}

-- The setters, with their bounds.
pub confirmations : EventWatcher → ℤ → EventWatcher
confirmations w blocks = record w { confirmations = if ltb_ℤ blocks (pos 0) then pos 0 else blocks }

pub max_blocks_per_poll : EventWatcher → ℤ → EventWatcher
max_blocks_per_poll w blocks = record w {
  max_blocks = if ltb_ℤ blocks (pos 1) then pos 1 else blocks;
}

abbrev pub saturating_add : ℤ → ℤ → ℤ
saturating_add a b =
    let sum = a +ℤ b in
    if fits_i64 sum then sum else if ltb_ℤ sum (pos 0) then negsuc i64_max else pos i64_max

abbrev pub min_ℤ : ℤ → ℤ → ℤ
min_ℤ a b = if ltb_ℤ b a then b else a

pub poll_target : ℤ → ℤ → ℤ → Option ℤ
poll_target next_block last_confirmed max_blocks =
    if leb_ℤ next_block last_confirmed
    then some (min_ℤ last_confirmed (saturating_add next_block (wrap_i64 (max_blocks -ℤ pos 1))))
    else none

module _ (e : SolEvent) (address : Option Address) where
  -- What a poll answers, and the watcher after it.
  abbrev pub Polled : Type 0
  Polled = EventWatcher × Result ContractError (List e.Event)

  abbrev pub advanced : EventWatcher → ℤ → ℤ → Result ContractError (List e.Event) → Polled
  advanced w target last_confirmed (err x) = (w, err x)
  advanced w target last_confirmed (ok events) = (
    record w { next_block = wrap_i64 (target +ℤ pos 1); caught_up = eqb_ℤ target last_confirmed },
    ok events,
  )

  abbrev pub scan_to : Provider → EventWatcher → ℤ → Option ℤ → Polled
  scan_to provider w last_confirmed none = (record w { caught_up = true }, ok [])
  scan_to provider w last_confirmed (some target) =
      advanced w target last_confirmed (query_range e address provider w.next_block target)

  abbrev pub poll_at : Provider → EventWatcher → Result RpcError ℤ → Polled
  poll_at provider w (err x) = (w, err (provider_error x))
  poll_at provider w (ok head) =
      let last_confirmed = wrap_i64 (head -ℤ w.confirmations) in
      scan_to provider w last_confirmed (poll_target w.next_block last_confirmed w.max_blocks)

  pub poll : Provider → EventWatcher → Polled
  unfolding query_range poll_target
  poll provider w = poll_at provider w provider.get_now_block
