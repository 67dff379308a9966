-- ===== src/Primitives/Address/Text.antt =====
-- Addresses and their texts.
use tronz.Prelude.{◌≡◌, ◌≢◌, refl, [], ◌∷◌, ◌++◌, Bytes, codes, All, ok, arith}
use tronz.Primitives.Address.{Address, Codec, IsAddress, from_hex, to_hex, strip_0x}
use tronz.Primitives.Address.Slices.{from_slice_iff}

-- What the crates document: decoding takes encoding back, and hex texts have no `x` in them.
abbrev pub Decodes : Codec → Type 0
Decodes c = (b : Bytes) → c.decode (c.encode b) ≡ ok b

abbrev pub WritesNoX : Codec → Type 0
WritesNoX c = (b : Bytes) → All (λ d. d ≢ b'x') (c.encode b)

strip_0x-none : (s : Bytes) → All (λ d. d ≢ b'x') s → strip_0x s ≡ s
strip_0x-none [] h = refl
strip_0x-none (a ∷ []) h = refl
strip_0x-none (a ∷ b ∷ s) h = ground arith

-- An address is read back from its hex text, also behind `0x`.
pub from_hex-to_hex :
    (c : Codec) (a : Address)
    → Decodes c
    → WritesNoX c
    → IsAddress a
    → (from_hex c (to_hex c a) ≡ ok a) × (from_hex c (codes "0x" ++ to_hex c a) ≡ ok a)
unfolding from_hex to_hex
from_hex-to_hex c a d x h = (
  ground (
    arith,
    d a.bytes,
    strip_0x-none (c.encode a.bytes) (x a.bytes),
    (from_slice_iff a.bytes a).1,
  ),
  ground (arith, d a.bytes, (from_slice_iff a.bytes a).1),
)

-- Whatever text is accepted, the address is well formed.
pub from_hex-IsAddress : (c : Codec) (s : Bytes) (a : Address) → from_hex c s ≡ ok a → IsAddress a
unfolding from_hex
from_hex-IsAddress c s a h = ground arith
