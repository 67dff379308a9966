-- ===== src/RpcTypes/Block/Summary.antt =====
-- What block summaries mean, and the range of the TAPOS fields.
use tronz.Prelude.Int.{pattern_i64}
use tronz.Prelude.{
  ℕ, ◌+◌, ◌*◌, ◌%◌, ◌^◌, ◌≡◌, ◌↔◌, ◌<◌, Option, none, some, [], ◌∷◌, Bytes, length, length-take,
  length-drop, drop, ok, arith, bind_ok, ok_or,
}
use tronz.Primitives.Address.{Address, IsAddress}
use tronz.RpcTypes.Wire.{malformed, header_missing, raw_header_missing}
use tronz.RpcTypes.Block.{
  BlockInfo, BlockSummary, ref_block_bytes, ref_block_hash, into_block_info, into_block_lookup,
  optional_hash, optional_witness, block_hash, info_of_raw, BlockHeaderRawSummary,
}

-- The TAPOS fields have their two and eight bytes, and the first spells the low sixteen bits of the
-- block number.
pub ref_block_shape :
    (b : BlockInfo) (hi lo : ℕ)
    → length b.hash ≡ 32
    → ref_block_bytes b ≡ hi ∷ lo ∷ []
    → (hi * 256 + lo ≡ pattern_i64 b.number % 2 ^ 16)
      × (hi < 256)
      × (lo < 256)
      × (length (ref_block_hash b) ≡ 8)
unfolding ref_block_bytes ref_block_hash
ref_block_shape b hi lo len h = ground (arith, length-take 8 (drop 8 b.hash), length-drop 8 b.hash)

-- A lookup reports the block as absent exactly when the answer is entirely empty; an id with no
-- header is an error, never an absent block.
pub into_block_lookup-none_iff :
    (b : BlockSummary) (fallback : Option Bytes)
    → (into_block_lookup b fallback ≡ ok none) ↔ ((b.block_header ≡ none) × (b.block_id ≡ []))
unfolding into_block_lookup
into_block_lookup-none_iff b fallback = ground arith

abbrev pub IsHash : Option Bytes → Type 0
IsHash none = Unit {0}
IsHash (some h) = length h ≡ 32

abbrev pub IsWitness : Option Address → Type 0
IsWitness none = Unit {0}
IsWitness (some a) = IsAddress a

optional_hash-IsHash : (bs : Bytes) (o : Option Bytes) → optional_hash bs ≡ ok o → IsHash o
unfolding optional_hash
optional_hash-IsHash bs o h = ground arith

optional_witness-IsWitness :
    (bs : Bytes) (o : Option Address) → optional_witness bs ≡ ok o → IsWitness o
unfolding optional_witness
optional_witness-IsWitness bs o h = ground arith

block_hash-length :
    (id : Bytes) (f : Option Bytes) (hash : Bytes)
    → IsHash f
    → block_hash id f ≡ ok hash
    → length hash ≡ 32
unfolding block_hash
block_hash-length id f hash hf h = ground arith

abbrev pub IsBlock : BlockInfo → Type 0
IsBlock i =
    (length i.hash ≡ 32) × IsHash i.parent_hash × IsHash i.tx_trie_root × IsWitness i.witness

info_of_raw-IsBlock :
    (raw : BlockHeaderRawSummary) (id : Bytes) (f : Option Bytes) (i : BlockInfo)
    → IsHash f
    → info_of_raw raw id f ≡ ok i
    → IsBlock i
unfolding info_of_raw
info_of_raw-IsBlock raw id f i hf h = ground (
  arith,
  block_hash-length id f i.hash hf,
  optional_hash-IsHash raw.parent_hash i.parent_hash,
  optional_hash-IsHash raw.tx_trie_root i.tx_trie_root,
  optional_witness-IsWitness raw.witness_address i.witness,
)

into_block_info-inv :
    (b : BlockSummary) (f : Option Bytes) (i : BlockInfo)
    → into_block_info b f ≡ ok i
    → (raw : BlockHeaderRawSummary) × (info_of_raw raw b.block_id f ≡ ok i)
unfolding into_block_info
into_block_info-inv b f i h =
    let (header, _, h1) = bind_ok (ok_or b.block_header (malformed header_missing)) _ h in
    let (raw, _, h2) = bind_ok (ok_or header.raw_data (malformed raw_header_missing)) _ h1 in
    (raw, h2)

-- Every hash of a block that is read has 32 bytes, and its witness is a well-formed address, if the
-- fallback for a missing id has 32 bytes.
pub into_block_info-IsBlock :
    (b : BlockSummary) (fallback : Option Bytes) (i : BlockInfo)
    → IsHash fallback
    → into_block_info b fallback ≡ ok i
    → IsBlock i
into_block_info-IsBlock b fallback i hf h =
    let (raw, built) = into_block_info-inv b fallback i h in
    info_of_raw-IsBlock raw b.block_id fallback i hf built
