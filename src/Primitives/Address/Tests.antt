-- ===== src/Primitives/Address/Tests.antt =====
-- Runs of crates/primitives/src/address.rs at concrete inputs.
use tronz.Prelude.{ℕ, ◌≡◌, ◌+◌, ◌-◌, refl, ok, [], ◌∷◌, Bytes, replicate, arith}
use tronz.Primitives.Address.{Address, Codec, IsAddress, from_slice, from_hex, Keys}
use tronz.Primitives.Address.Text.{from_hex-IsAddress, Decodes, WritesNoX}

abbrev sample : Address
sample = record { bytes = 0x41 ∷ replicate 20 7 }

-- Stands in for a text codec: each byte is written as one character above `x`.
abbrev raise : Bytes → Bytes
raise [] = []
raise (b ∷ bs) = (b + 200) ∷ raise bs

abbrev lower : Bytes → Bytes
lower [] = []
lower (b ∷ bs) = (b - 200) ∷ lower bs

abbrev raising : Codec
raising = record { encode = raise; decode = λ s. ok (lower s) }

lower-raise : (b : Bytes) → lower (raise b) ≡ b
lower-raise [] = refl
lower-raise (b ∷ bs) = ground (arith, lower-raise bs)

raising-Decodes : Decodes raising
raising-Decodes b = ground (arith, lower-raise b)

raising-WritesNoX : WritesNoX raising
raising-WritesNoX [] = tt
raising-WritesNoX (b ∷ bs) = (omega arith, raising-WritesNoX bs)

abbrev toy_keys : Keys
toy_keys = record {
  VerifyingKey = ℕ;
  keccak256 = λ _. replicate 32 9;
  uncompressed = λ k. 4 ∷ replicate 64 k;
}

sample_slice : from_slice sample.bytes ≡ ok sample
unfolding from_slice
sample_slice = refl

hex_read : from_hex raising (raise sample.bytes) ≡ ok sample
unfolding from_hex
hex_read = refl

from_hex-IsAddress_example : IsAddress sample
from_hex-IsAddress_example = from_hex-IsAddress raising (raise sample.bytes) sample hex_read
