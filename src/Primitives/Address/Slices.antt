-- ===== src/Primitives/Address/Slices.antt =====
-- Addresses and their bytes.
use tronz.Prelude.{◌≡◌, ◌↔◌, refl, Bytes, length, length-drop, drop, ok, err, arith, ◌≢◌}
use tronz.Primitives.Address.{
  Address, bad_length, bad_prefix, from_slice, from_evm_bytes, as_evm_bytes, IsAddress, address_len,
  address_prefix, head_or_zero, Keys, from_public_key, evm_address_len,
}

-- `from_slice` succeeds exactly on the 21 bytes of an address, and keeps them.
pub from_slice_iff :
    (s : Bytes) (a : Address) → (from_slice s ≡ ok a) ↔ ((a ≡ record { bytes = s }) × IsAddress a)
unfolding from_slice
from_slice_iff s a = ground arith

-- Another length is reported with the length met, before the prefix is looked at; of 21 bytes with
-- another prefix the prefix is reported.
pub from_slice_errors :
    (s : Bytes)
    → (length s ≢ address_len → from_slice s ≡ err (bad_length address_len (length s)))
      × (length s ≡ address_len
          → head_or_zero s ≢ address_prefix
          → from_slice s ≡ err (bad_prefix (head_or_zero s)))
unfolding from_slice
from_slice_errors s = (λ h. ground arith, λ h k. ground arith)

-- The 20-byte body and the address determine one another.
pub evm_bytes_inverse :
    (a : Address) (evm : Bytes)
    → IsAddress a
    → (as_evm_bytes (from_evm_bytes evm) ≡ evm) × (from_evm_bytes (as_evm_bytes a) ≡ a)
unfolding as_evm_bytes from_evm_bytes
evm_bytes_inverse a evm h = (refl, ground arith)

pub from_evm_bytes-IsAddress :
    (evm : Bytes) → length evm ≡ evm_address_len → IsAddress (from_evm_bytes evm)
unfolding from_evm_bytes
from_evm_bytes-IsAddress evm h = omega arith

-- The address of any key is well formed, given that `keccak256` returns 32 bytes.
pub from_public_key-IsAddress :
    (k : Keys) (key : k.VerifyingKey)
    → ((input : Bytes) → length (k.keccak256 input) ≡ 32)
    → IsAddress (from_public_key k key)
unfolding from_public_key
from_public_key-IsAddress k key h = from_evm_bytes-IsAddress _ (
    omega (
      arith,
      h (drop 1 (k.uncompressed key)),
      length-drop 12 (k.keccak256 (drop 1 (k.uncompressed key))),
    ))
