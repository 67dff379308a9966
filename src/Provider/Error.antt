-- ===== src/Provider/Error.antt =====
-- crates/provider/src/error.rs and the status mapping of crates/provider/src/transport/grpc/mod.rs: the
-- errors of a call, which of them are retried, and how one is promoted. A boxed error is
-- represented by its text, and a message that the code formats by a constructor.
pub mod Status
pub mod Broadcasts
mod Tests
use tronz.Prelude.{
  ℕ, ◌*◌, ◌+◌, ◌-◌, ◌≡◌, Bool, true, false, Option, none, some, List, [], ◌∷◌, Bytes, codes, leb,
  ◌==◌, ◌&&◌, if◌then◌else◌,
}
use tronz.Prelude.Int.{ℤ}
use tronz.RpcTypes.Wire.{ResponseError, decode_error, malformed, node_error, Malformation}

pub data RpcStatusCode : Type 0 where
  cancelled unknown invalid_argument deadline_exceeded not_found already_exists : RpcStatusCode
  permission_denied resource_exhausted failed_precondition aborted out_of_range : RpcStatusCode
  unimplemented internal unavailable data_loss unauthenticated : RpcStatusCode

-- `malformed_response` and `mispriced` are the messages of `Malformed`.
pub data TransportErrorKind : Type 0 where
  rpc : RpcStatusCode → Bytes → TransportErrorKind
  connect : Bytes → TransportErrorKind
  proto : Bytes → TransportErrorKind
  malformed_response : Malformation → TransportErrorKind
  mispriced : ℤ → ℤ → TransportErrorKind
  refused unsupported custom non_retryable : Bytes → TransportErrorKind

-- The messages of `LocalUsageError`.
pub data LocalUsage : Type 0 where
  missing_owner_address missing_contract no_signer inverted_bounds bad_amount : LocalUsage
  signer_failed : Bytes → LocalUsage

pub data RpcError : Type 0 where
  transport : TransportErrorKind → RpcError
  node_failed : Bytes → RpcError
  local_usage : LocalUsage → RpcError
  broadcast_unknown : Bytes → TransportErrorKind → RpcError

-- `From<ResponseError>`.
unfoldable pub of_response : ResponseError → TransportErrorKind
of_response (decode_error e) = proto e
of_response (malformed m) = malformed_response m
of_response (node_error m) = refused m

pub is_retryable_code : RpcStatusCode → Bool
is_retryable_code unavailable = true
is_retryable_code resource_exhausted = true
is_retryable_code aborted = true
is_retryable_code c = false

unfoldable pub is_retryable : TransportErrorKind → Bool
unfolding is_retryable_code
is_retryable (rpc code m) = is_retryable_code code
is_retryable e = false

-- `From<TransportErrorKind>`.
unfoldable pub promote : TransportErrorKind → RpcError
promote (refused m) = node_failed m
promote e = transport e

unfoldable pub as_transport_err : RpcError → Option TransportErrorKind
as_transport_err (transport e) = some e
as_transport_err e = none

is_refusal_code : RpcStatusCode → Bool
is_refusal_code invalid_argument = true
is_refusal_code permission_denied = true
is_refusal_code unauthenticated = true
is_refusal_code unimplemented = true
is_refusal_code c = false

pub is_refused : TransportErrorKind → Bool
unfolding is_refusal_code
is_refused (refused m) = true
is_refused (rpc code m) = is_refusal_code code
is_refused (unsupported m) = true
is_refused e = false

-- `RpcError::broadcast`.
unfoldable pub broadcast_error : Bytes → TransportErrorKind → RpcError
unfolding is_refused promote
broadcast_error tx_id source =
    if is_refused source then promote source else broadcast_unknown tx_id source

-- `RpcError::tx_id`.
unfoldable pub error_tx_id : RpcError → Option Bytes
error_tx_id (broadcast_unknown tx_id e) = some tx_id
error_tx_id e = none

-- `is_worth_reasking` of crates/provider/src/provider/pending.rs.
abbrev pub worth : Option TransportErrorKind → Bool
worth (some (rpc c m)) = true
worth (some (connect m)) = true
worth o = false

unfoldable pub is_worth_reasking : RpcError → Bool
unfolding as_transport_err
is_worth_reasking e = worth (as_transport_err e)

-- `map_http_status`.
unfoldable pub map_http_status : ℕ → Option RpcStatusCode
map_http_status status =
    if status == 401
    then some unauthenticated
    else if status == 403
    then some permission_denied
    else if status == 429
    then some resource_exhausted
    else if leb 502 status && leb status 504
    then some unavailable
    else none

-- `tonic::Code`, with its own `Ok`.
pub data Code : Type 0 where
  answered : Code
  failed : RpcStatusCode → Code

unfoldable pub map_code : Code → RpcStatusCode
map_code answered = unknown
map_code (failed c) = c

-- `map_status`, from the HTTP status that the message holds, if there is one.
unfoldable pub map_status : Option ℕ → Code → (ℕ → Bytes) → Bytes → TransportErrorKind
unfolding map_http_status map_code
map_status none code describe message = rpc (map_code code) message
map_status (some http) code describe message = elim (map_http_status http) [
  | none ↦ rpc (map_code code) message
  | some c ↦ rpc c (describe http)
]
