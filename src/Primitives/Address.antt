-- ===== src/Primitives/Address.antt =====
-- crates/primitives/src/address.rs. A byte array is a list of bytes; that it has its fixed length is
-- the invariant `IsAddress`. The crates bs58, hex, k256 and alloy (keccak256) are parameters, and
-- their error values are represented by their text.
pub mod Slices
pub mod Text
mod Tests
use tronz.Prelude.{
  ℕ, zero, suc, ◌≡◌, ◌<◌, Bool, true, false, Option, none, some, List, [], ◌∷◌, ◌++◌, Bytes, length,
  drop, replicate, All, Result, ok, err, ◌>>=◌, map_err, ◌==◌, if◌then◌else◌, codes,
}

abbrev pub address_prefix : ℕ
address_prefix = 0x41

abbrev pub address_len : ℕ
address_len = 21

abbrev pub evm_address_len : ℕ
evm_address_len = 20

pub data AddressError : Type 0 where
  bad_prefix : ℕ → AddressError
  bad_length : ℕ → ℕ → AddressError
  base58 : Bytes → AddressError
  hex : Bytes → AddressError

pub record Address : Type 0 where
  pub bytes : Bytes

abbrev pub head_or_zero : Bytes → ℕ
head_or_zero [] = 0
head_or_zero (b ∷ bs) = b

abbrev pub address_zero : Address
address_zero = record { bytes = address_prefix ∷ replicate evm_address_len 0 }

-- On an array of 21 bytes.
unfoldable pub from_bytes : Bytes → Result AddressError Address
from_bytes bytes =
    if head_or_zero bytes == address_prefix
    then ok (record { bytes = bytes })
    else err (bad_prefix (head_or_zero bytes))

unfoldable pub from_slice : Bytes → Result AddressError Address
unfolding from_bytes
from_slice slice =
    if length slice == address_len
    then from_bytes slice
    else err (bad_length address_len (length slice))

-- On an array of 20 bytes.
unfoldable pub from_evm_bytes : Bytes → Address
from_evm_bytes evm = record { bytes = address_prefix ∷ evm }

unfoldable pub as_evm_bytes : Address → Bytes
as_evm_bytes a = drop 1 a.bytes

-- What the type promises of the value: 21 bytes, the first of which is the prefix.
abbrev pub IsAddress : Address → Type 0
IsAddress a = (length a.bytes ≡ address_len) × (head_or_zero a.bytes ≡ address_prefix)

-- A text codec of another crate: hex, or base58 with its checksum.
pub record Codec : Type 0 where
  pub encode : Bytes → Bytes
  pub decode : Bytes → Result Bytes Bytes

abbrev pub strip_0x : Bytes → Bytes
strip_0x [] = []
strip_0x (a ∷ []) = a ∷ []
strip_0x (a ∷ b ∷ bs) = if a == b'0' then (if b == b'x' then bs else a ∷ b ∷ bs) else a ∷ b ∷ bs

module _ (c : Codec) where
  pub from_base58 : Bytes → Result AddressError Address
  unfolding from_slice
  from_base58 s = map_err base58 (c.decode s) >>= from_slice

  pub to_base58 : Address → Bytes
  to_base58 a = c.encode a.bytes

  pub from_hex : Bytes → Result AddressError Address
  unfolding from_slice
  from_hex s = map_err hex (c.decode (strip_0x s)) >>= from_slice

  pub to_hex : Address → Bytes
  to_hex a = c.encode a.bytes

-- `keccak256`, and the uncompressed SEC1 encoding of a public key.
pub record Keys : Type 1 where
  pub VerifyingKey : Type 0
  pub keccak256 : Bytes → Bytes
  pub uncompressed : VerifyingKey → Bytes

module _ (k : Keys) where
  pub from_public_key : k.VerifyingKey → Address
  unfolding from_evm_bytes
  from_public_key key = from_evm_bytes (drop 12 (k.keccak256 (drop 1 (k.uncompressed key))))
