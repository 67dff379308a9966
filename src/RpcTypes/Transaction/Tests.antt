-- ===== src/RpcTypes/Transaction/Tests.antt =====
-- Runs of the transactions at concrete inputs, with a codec of two messages.
use tronz.Prelude.{
  ◌≡◌, ◌⊎◌, refl, sym, ok-injective, true, false, none, some, List, [], ◌∷◌, ◌++◌, Bytes, replicate,
  Result, ok, arith,
}
use tronz.Prelude.Int.{pos}
use tronz.Primitives.Signature.{RecoverableSignature, to_bytes}
use tronz.RpcTypes.Wire.{
  extract_raw_data, scan_loop, scan_field, keep, read_varint, varint_loop, skip,
}
use tronz.RpcTypes.Transaction.{
  Proto, ProtoRaw, ProtoTransaction, RawTransaction, DecodedTransaction, SignedTransaction,
  TransactionRequest, from_encoded, apply_request_fields, decode_signed, encode_signed, found_raw,
  overridden, set_permission, to_proto, read_signatures,
}
use tronz.RpcTypes.Transaction.Ids.{
  IsConsistent, from_encoded-IsConsistent, apply_request_fields-IsConsistent,
}
use tronz.RpcTypes.Transaction.Applied.{Applied}
use tronz.RpcTypes.Transaction.Signed.{decode_signed-encode_signed}

abbrev raw_data : ProtoRaw
raw_data = record {
  ref_block_bytes = [];
  ref_block_hash = [];
  expiration = pos 9;
  memo = [];
  contract = record { kind = pos 1; parameter = none; permission_id = pos 0; rest = 4 ∷ [] } ∷ [];
  timestamp = pos 8;
  fee_limit = pos 0;
  rest = 3 ∷ [];
}

abbrev signature : RecoverableSignature
signature = record { r = replicate 32 1; s = replicate 32 2; v = 1 }

abbrev message : List Bytes → ProtoTransaction
message gs = record { raw_data = some raw_data; signature = gs; ret = [] }

-- The raw data is the one byte 7, and a signature adds a field.
abbrev wire : List Bytes → Bytes
wire [] = 10 ∷ 1 ∷ 7 ∷ []
wire (g ∷ gs) = 10 ∷ 1 ∷ 7 ∷ 24 ∷ 1 ∷ []

abbrev signed_bytes : Bytes
signed_bytes = replicate 32 1 ++ (replicate 32 2 ++ 1 ∷ [])

abbrev unwire : Bytes → Result Bytes ProtoTransaction
unwire (a ∷ b ∷ c ∷ []) = ok (message [])
unwire bytes = ok (message (signed_bytes ∷ []))

abbrev toy : Proto
toy = record {
  decode = unwire;
  encode = λ t. wire t.signature;
  encode_raw = λ d. 7 ∷ [];
  sha256 = λ b. 5 ∷ b;
}

abbrev raw : RawTransaction
raw = record {
  expiration = pos 9;
  timestamp = pos 8;
  tx_id = 5 ∷ 7 ∷ [];
  raw_proto = 10 ∷ 1 ∷ 7 ∷ [];
}

abbrev decoded : DecodedTransaction
decoded = record { raw = raw; signatures = []; has_results = false; has_contract = true }

abbrev consistent : IsConsistent toy raw
consistent = record {
  tx = message [];
  raw_data = raw_data;
  bytes = refl;
  carries = refl;
  unsigned = refl;
  id = refl;
  expires = refl;
  created = refl;
}

message_found : extract_raw_data (10 ∷ 1 ∷ 7 ∷ []) ≡ some (ok (7 ∷ []))
unfolding extract_raw_data scan_loop scan_field keep read_varint varint_loop skip
message_found = refl

signed_found : extract_raw_data (10 ∷ 1 ∷ 7 ∷ 24 ∷ 1 ∷ []) ≡ some (ok (7 ∷ []))
unfolding extract_raw_data scan_loop scan_field keep read_varint varint_loop skip
signed_found = refl

message_read : from_encoded toy (10 ∷ 1 ∷ 7 ∷ []) (5 ∷ 7 ∷ []) ≡ ok decoded
unfolding from_encoded read_signatures
message_read = rw message_found refl

from_encoded-IsConsistent_example :
    (r : Bytes) × IsConsistent toy raw
    × (found_raw (extract_raw_data (10 ∷ 1 ∷ 7 ∷ [])) ≡ ok r)
    × (raw.tx_id ≡ toy.sha256 r)
    × ((◌≡◌ {A = Bytes} (5 ∷ 7 ∷ []) []) ⊎ (5 ∷ 7 ∷ [] ≡ raw.tx_id))
from_encoded-IsConsistent_example =
    from_encoded-IsConsistent toy (10 ∷ 1 ∷ 7 ∷ []) (5 ∷ 7 ∷ []) decoded message_read

-- A fee limit, and another permission.
abbrev request : TransactionRequest
request = record {
  contract = none;
  fee_limit = some (record { sun = pos 100 });
  memo = none;
  permission_id = some (pos 2);
  ref_block_bytes = none;
  ref_block_hash = none;
  expiration = none;
  timestamp = none;
}

abbrev changed : RawTransaction
changed = raw

request_applied : apply_request_fields toy raw request ≡ ok changed
unfolding apply_request_fields overridden set_permission
request_applied = refl

apply_request_fields-IsConsistent_example :
    (c' : IsConsistent toy changed) × Applied request raw_data c'.raw_data × (c'.tx.ret ≡ [])
apply_request_fields-IsConsistent_example =
    apply_request_fields-IsConsistent toy raw changed request consistent
      (λ t h. sym (ok-injective h)) request_applied

abbrev signed : SignedTransaction
signed = record { raw = raw; signatures = signature ∷ [] }

decode_signed-encode_signed_example :
    (encoded : Bytes) × (encode_signed toy signed ≡ ok encoded)
    × (decode_signed toy encoded ≡ ok signed)
unfolding to_bytes
decode_signed-encode_signed_example =
    decode_signed-encode_signed toy signed consistent ((refl, refl, omega arith), tt) refl refl refl
      (rw signed_found refl)

-- A codec that spends 67 bytes on each signature.
abbrev padded : List Bytes → Bytes
padded [] = []
padded (g ∷ gs) = replicate 67 0 ++ padded gs

abbrev sized : Proto
sized = record {
  decode = λ b. ok (message []);
  encode = λ t. padded t.signature;
  encode_raw = λ d. 7 ∷ [];
  sha256 = λ b. 5 ∷ b;
}

abbrev sized_signed : SignedTransaction
sized_signed = record {
  raw = record { expiration = pos 9; timestamp = pos 8; tx_id = 5 ∷ 7 ∷ []; raw_proto = [] };
  signatures = signature ∷ [];
}

abbrev sized_consistent : IsConsistent sized sized_signed.raw
sized_consistent = record {
  tx = message [];
  raw_data = raw_data;
  bytes = refl;
  carries = refl;
  unsigned = refl;
  id = refl;
  expires = refl;
  created = refl;
}

sized_encoded : encode_signed sized sized_signed ≡ ok (replicate 67 0)
unfolding encode_signed to_proto
sized_encoded = refl
