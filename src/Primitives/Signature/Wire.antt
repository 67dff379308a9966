-- ===== src/Primitives/Signature/Wire.antt =====
-- The wire forms of a signature.
use tronz.Prelude.{
  ℕ, ◌+◌, ◌%◌, ◌≡◌, ◌≤◌, ◌⊎◌, ◌↔◌, inl, inr, refl, sym, ap, ◌∙◌, Bytes, length, take, drop, get_or,
  [], ◌∷◌, ◌++◌, ok, some, arith, take-append, drop-append, take-append-drop, length-take,
  length-drop, length-append, append_assoc, get_or-append, take-append-last, take-take-drop,
}
use tronz.Primitives.Address.{from_public_key}
use tronz.Primitives.Signature.{
  RecoverableSignature, IsSignature, from_bytes, to_bytes, to_legacy_bytes, normalised, Ecdsa,
  split, from_signature, recover_address_from_prehash,
}

-- The three parts of `(r ++ s) ++ v ∷ []`.
parts :
    (r s : Bytes) (v : ℕ)
    → length r ≡ 32
    → length s ≡ 32
    → let bytes = r ++ s ++ v ∷ [] in
      (length bytes ≡ 65)
      × (get_or bytes 64 0 ≡ v)
      × (take 32 bytes ≡ r)
      × (take 32 (drop 32 bytes) ≡ s)
parts r s v hr hs = (
  omega (arith, length-append (r ++ s) (v ∷ []), length-append r s),
  get_or-append 64 (r ++ s) [] v 0 (omega (arith, length-append r s)),
  rw (append_assoc r s (v ∷ [])) (take-append 32 r (s ++ v ∷ []) hr),
  rw (append_assoc r s (v ∷ []), drop-append 32 r (s ++ v ∷ []) hr) (take-append 32 s (v ∷ []) hs),
)

whole :
    (bytes : Bytes)
    → length bytes ≡ 65
    → take 32 bytes ++ take 32 (drop 32 bytes) ++ get_or bytes 64 0 ∷ [] ≡ bytes
whole bytes h = rw (← take-take-drop 64 32 32 bytes refl) (take-append-last 64 bytes 0 h)

-- Both wire forms of a signature are read back as that signature.
pub from_bytes-to_bytes :
    (g : RecoverableSignature)
    → IsSignature g
    → (from_bytes (to_bytes g) ≡ ok g) × (from_bytes (to_legacy_bytes g) ≡ ok g)
unfolding from_bytes to_bytes to_legacy_bytes
from_bytes-to_bytes g h =
    (ground (arith, parts g.r g.s g.v), ground (arith, parts g.r g.s ((g.v + 27) % 256)))

normalised_sound : (b v : ℕ) → normalised b ≡ ok v → (v ≤ 1) × ((b ≡ v) ⊎ (b ≡ (v + 27) % 256))
unfolding normalised
normalised_sound b v h = ground arith

from_bytes_inv :
    (bytes : Bytes) (g : RecoverableSignature)
    → from_bytes bytes ≡ ok g
    → (length bytes ≡ 65)
      × (normalised (get_or bytes 64 0) ≡ ok g.v)
      × (take 32 bytes ≡ g.r)
      × (take 32 (drop 32 bytes) ≡ g.s)
unfolding from_bytes
from_bytes_inv bytes g h = ground arith

-- Whatever bytes are accepted are one of the two wire forms of the signature read, which is well
-- formed.
pub from_bytes_sound :
    (bytes : Bytes) (g : RecoverableSignature)
    → from_bytes bytes ≡ ok g
    → IsSignature g × ((bytes ≡ to_bytes g) ⊎ (bytes ≡ to_legacy_bytes g))
unfolding to_bytes to_legacy_bytes
from_bytes_sound bytes g h =
    let (len, v, r, s) = from_bytes_inv bytes g h in
    let (small, wire) = normalised_sound (get_or bytes 64 0) g.v v in
    let joined : bytes ≡ g.r ++ g.s ++ get_or bytes 64 0 ∷ [] =
      rw (← r, ← s) (sym (whole bytes len)) in
    (
      (
        rw (← r) (omega (arith, length-take 32 bytes)),
        rw (← s) (omega (arith, length-take 32 (drop 32 bytes), length-drop 32 bytes)),
        small,
      ),
      elim wire [
        | inl e ↦ inl (joined ∙ ap (λ (t : ℕ). g.r ++ g.s ++ t ∷ []) e)
        | inr e ↦ inr (joined ∙ ap (λ (t : ℕ). g.r ++ g.s ++ t ∷ []) e)
      ],
    )

-- Reading succeeds exactly on the two wire forms of a well-formed signature, and gives that signature:
-- no other bytes are accepted.
pub from_bytes_iff :
    (bytes : Bytes) (g : RecoverableSignature)
    → (from_bytes bytes ≡ ok g)
      ↔ (IsSignature g × ((bytes ≡ to_bytes g) ⊎ (bytes ≡ to_legacy_bytes g)))
from_bytes_iff bytes g = (
  from_bytes_sound bytes g,
  λ (well, wire). elim wire [
    | inl e ↦ ap from_bytes e ∙ (from_bytes-to_bytes g well).0
    | inr e ↦ ap from_bytes e ∙ (from_bytes-to_bytes g well).1
  ],
)

-- Splitting takes back what was built from a signature of k256 and its recovery id, given that k256
-- writes 64 bytes, reads them back, and takes back its own recovery ids.
pub split-from_signature :
    (k : Ecdsa) (sig : k.Sig) (id : ℕ)
    → ((g : k.Sig) → length (k.sig_to_bytes g) ≡ 64)
    → ((g : k.Sig) → k.sig_from_slice (k.sig_to_bytes g) ≡ ok g)
    → k.recovery_from_byte id ≡ some id
    → split k (from_signature k sig id) ≡ ok (sig, id)
unfolding split from_signature
split-from_signature k sig id len reads known =
    rw (take-append-drop 32 (k.sig_to_bytes sig), reads sig, known)

pub length-to_bytes : (g : RecoverableSignature) → IsSignature g → length (to_bytes g) ≡ 65
unfolding to_bytes
length-to_bytes g (r, s, v) =
    omega (arith, length-append (g.r ++ g.s) (g.v ∷ []), length-append g.r g.s, r, s)

pub recover-from_signature :
    (k : Ecdsa) (sig : k.Sig) (id : ℕ) (prehash : Bytes) (key : k.keys.VerifyingKey)
    → length (k.sig_to_bytes sig) ≡ 64
    → k.sig_from_slice (k.sig_to_bytes sig) ≡ ok sig
    → k.recovery_from_byte id ≡ some id
    → k.recover prehash sig id ≡ ok key
    → recover_address_from_prehash k (from_signature k sig id) prehash
      ≡ ok (from_public_key k.keys key)
unfolding recover_address_from_prehash split from_signature
recover-from_signature k sig id prehash key len reads known recovered =
    rw (take-append-drop 32 (k.sig_to_bytes sig), reads, known, recovered)
