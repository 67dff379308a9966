-- ===== src/RpcTypes/Wire.antt =====
-- crates/rpc-types/src/types/transaction.rs: `read_varint`, `skip` and `extract_raw_data`, the scan for
-- the raw bytes that a transaction id is the hash of. The cursor into the buffer is represented by
-- the bytes from it on. `usize` has 64 bits.
pub mod Varint
pub mod Fields
mod Tests
use Prim.Native.Nat.{bit_and, bit_or}
use tronz.Prelude.{
  ℕ, zero, suc, ◌+◌, ◌-◌, ◌*◌, ◌/◌, ◌%◌, ◌^◌, ◌≤◌, Bool, Option, none, some, List, [], ◌∷◌, Bytes,
  codes, length, take, drop, Result, ok, err, ◌>>=◌, ok_or, ltb, leb, ◌==◌, if◌then◌else◌, ◌&&◌,
}
use tronz.Prelude.Int.{ℤ}

-- The messages of `ResponseError::Malformed`, one constructor for each.
pub data Malformation : Type 0 where
  truncated_varint varint_overflow varint_too_long truncated_field : Malformation
  repeated_raw_data no_raw_data : Malformation
  unsupported_wire_type : ℕ → Malformation
  bad_signature carries_signatures carries_results no_contract : Malformation
  unpreserved_encoding txid_mismatch no_contract_for_permission missing_raw_data : Malformation
  header_missing raw_header_missing block_id_missing block_id_length id_without_header :
      Malformation
  hash_length bad_witness : Malformation
  missing_transaction missing_parameter different_contract : Malformation
  contract_count : ℕ → Malformation
  different_kind : ℤ → ℤ → Malformation
  bad_address txid_length hash_length_of_call order_id_length : Malformation

pub data ResponseError : Type 0 where
  decode_error : Bytes → ResponseError
  malformed : Malformation → ResponseError
  node_error : Bytes → ResponseError

-- `for shift in (0..70).step_by(7)`, with the rounds that are left.
unfoldable pub varint_loop : ℕ → ℕ → ℕ → Bytes → Result ResponseError (ℕ × Bytes)
varint_loop zero shift value rest = err (malformed varint_too_long)
varint_loop (suc rounds) shift value [] = err (malformed truncated_varint)
varint_loop (suc rounds) shift value (byte ∷ rest) =
    let value' = bit_or value (bit_and byte 0x7f * 2 ^ shift % 2 ^ 64) in
    let more = varint_loop rounds (shift + 7) value' rest in
    if shift == 63 && ltb 1 byte
    then err (malformed varint_overflow)
    else if bit_and byte 0x80 == 0
    then ok (value', rest)
    else more

unfoldable pub read_varint : Bytes → Result ResponseError (ℕ × Bytes)
unfolding varint_loop
read_varint rest = varint_loop 10 0 0 rest

unfoldable pub skip : ℕ → Bytes → Result ResponseError Bytes
skip len rest =
    if leb len (length rest) then ok (drop len rest) else err (malformed truncated_field)

unfoldable pub keep : Option Bytes → Bytes → Bytes → Result ResponseError (Option Bytes × Bytes)
keep none raw_data rest = ok (some raw_data, rest)
keep (some _) raw_data rest = err (malformed repeated_raw_data)

-- The bytes of one field, with the raw data found before and after.
unfoldable pub scan_field : Option Bytes → Bytes → Result ResponseError (Option Bytes × Bytes)
unfolding keep
scan_field found rest = read_varint rest >>= λ (key, rest).
    let field = key / 8 in
    let wire = bit_and key 7 in
    if wire == 0
    then (read_varint rest >>= λ (_, rest). ok (found, rest))
    else if wire == 1
    then (skip 8 rest >>= λ rest. ok (found, rest))
    else if wire == 2
    then (read_varint rest >>= λ (len, start). skip len start >>= λ rest.
        if field == 1 then keep found (take len start) rest else ok (found, rest))
    else if wire == 5
    then (skip 4 rest >>= λ rest. ok (found, rest))
    else err (malformed (unsupported_wire_type wire))

-- `while cursor < encoded.len()`; a field takes a byte at least, so `length encoded` rounds suffice.
-- `none` is no outcome of the code: the fuel ran out.
unfoldable pub scan_loop : ℕ → Option Bytes → Bytes → Option (Result ResponseError Bytes)
scan_loop fuel found [] = some (ok_or found (malformed no_raw_data))
scan_loop zero found (b ∷ bs) = none
scan_loop (suc fuel) found (b ∷ bs) = elim (scan_field found (b ∷ bs)) [
  | ok (found', rest) ↦ scan_loop fuel found' rest
  | err e ↦ some (err e)
]

unfoldable pub extract_raw_data : Bytes → Option (Result ResponseError Bytes)
unfolding scan_loop
extract_raw_data encoded = scan_loop (length encoded) none encoded
