-- ===== src/RpcTypes/Block.antt =====
-- crates/rpc-types/src/types/block.rs and light_block.rs: block summaries and their TAPOS fields.
pub mod Summary
mod Tests
use tronz.Prelude.{
  ℕ, ◌+◌, ◌-◌, ◌*◌, ◌/◌, ◌%◌, ◌^◌, ◌≡◌, ◌<◌, Bool, true, false, Option, none, some, List, [], ◌∷◌,
  Bytes, length, take, drop, All, Result, ok, err, ◌>>=◌, map_err, ok_or, ◌==◌, if◌then◌else◌,
}
use tronz.Prelude.Int.{ℤ, pattern_i64}
use tronz.Primitives.Address.{Address, AddressError, from_slice}
use tronz.RpcTypes.Wire.{
  ResponseError, malformed, header_missing, raw_header_missing, block_id_missing, block_id_length,
  id_without_header, hash_length, bad_witness,
}

pub record BlockInfo : Type 0 where
  pub number : ℤ
  pub hash : Bytes
  pub timestamp : ℤ
  pub parent_hash : Option Bytes
  pub tx_trie_root : Option Bytes
  pub witness : Option Address
  pub version : Option ℤ

-- Bytes 6 and 7 of `to_be_bytes`.
unfoldable pub ref_block_bytes : BlockInfo → Bytes
ref_block_bytes b = (pattern_i64 b.number / 2 ^ 8 % 2 ^ 8) ∷ (pattern_i64 b.number % 2 ^ 8) ∷ []

unfoldable pub ref_block_hash : BlockInfo → Bytes
ref_block_hash b = take 8 (drop 8 b.hash)

-- The protobuf views of a block that leave its transactions out.
pub record BlockHeaderRawSummary : Type 0 where
  pub timestamp : ℤ
  pub tx_trie_root : Bytes
  pub parent_hash : Bytes
  pub number : ℤ
  pub witness_address : Bytes
  pub version : ℤ

pub record BlockHeaderSummary : Type 0 where
  pub raw_data : Option BlockHeaderRawSummary

pub record BlockSummary : Type 0 where
  pub block_header : Option BlockHeaderSummary
  pub block_id : Bytes

abbrev pub is_empty : Bytes → Bool
is_empty [] = true
is_empty (b ∷ bs) = false

pub optional_hash : Bytes → Result ResponseError (Option Bytes)
optional_hash bytes =
    if is_empty bytes
    then ok none
    else if length bytes == 32
    then ok (some bytes)
    else err (malformed hash_length)

pub optional_witness : Bytes → Result ResponseError (Option Address)
unfolding from_slice
optional_witness bytes =
    if is_empty bytes
    then ok none
    else (map_err (λ _. malformed bad_witness) (from_slice bytes) >>= λ a. ok (some a))

pub block_hash : Bytes → Option Bytes → Result ResponseError Bytes
block_hash block_id fallback_hash =
    if is_empty block_id
    then ok_or fallback_hash (malformed block_id_missing)
    else if length block_id == 32
    then ok block_id
    else err (malformed block_id_length)

-- `into_block_info` from the raw header on.
pub info_of_raw : BlockHeaderRawSummary → Bytes → Option Bytes → Result ResponseError BlockInfo
info_of_raw raw block_id fallback_hash = do
  hash ← block_hash block_id fallback_hash
  parent ← optional_hash raw.parent_hash
  root ← optional_hash raw.tx_trie_root
  witness ← optional_witness raw.witness_address
  ok (record {
    number = raw.number;
    hash = hash;
    timestamp = raw.timestamp;
    parent_hash = parent;
    tx_trie_root = root;
    witness = witness;
    version = some raw.version;
  })

pub into_block_info : BlockSummary → Option Bytes → Result ResponseError BlockInfo
into_block_info b fallback_hash = do
  header ← ok_or b.block_header (malformed header_missing)
  raw ← ok_or header.raw_data (malformed raw_header_missing)
  info_of_raw raw b.block_id fallback_hash

pub into_block_lookup : BlockSummary → Option Bytes → Result ResponseError (Option BlockInfo)
into_block_lookup b fallback_hash = elim b.block_header [
  | none ↦ if is_empty b.block_id then ok none else err (malformed id_without_header)
  | some h ↦ into_block_info b fallback_hash >>= λ i. ok (some i)
]
