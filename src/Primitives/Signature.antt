-- ===== src/Primitives/Signature.antt =====
-- crates/primitives/src/signature.rs. The scalars and signatures of k256 and the decoding of hex are
-- parameters.
pub mod Wire
mod Tests
use tronz.Prelude.{
  ℕ, ◌+◌, ◌%◌, ◌≡◌, ◌≤◌, Bool, Option, none, some, List, [], ◌∷◌, ◌++◌, Bytes, length, take, drop,
  get_or, Result, ok, err, ◌>>=◌, map_err, ok_or, ◌==◌, if◌then◌else◌, ◌||◌,
}
use tronz.Primitives.Address.{strip_0x, Address, Keys, from_public_key}

abbrev pub signature_len : ℕ
signature_len = 65

pub data SignatureError : Type 0 where
  bad_length : ℕ → SignatureError
  bad_recovery_id : ℕ → SignatureError
  hex : Bytes → SignatureError
  ecdsa : Bytes → SignatureError

pub record RecoverableSignature : Type 0 where
  pub r : Bytes
  pub s : Bytes
  pub v : ℕ

-- What the type promises: two arrays of 32 bytes, and a recovery id of 0 or 1.
abbrev pub IsSignature : RecoverableSignature → Type 0
IsSignature g = (length g.r ≡ 32) × (length g.s ≡ 32) × (g.v ≤ 1)

pub normalised : ℕ → Result SignatureError ℕ
normalised v =
    if v == 0 || v == 1
    then ok v
    else if v == 27
    then ok 0
    else if v == 28
    then ok 1
    else err (bad_recovery_id v)

unfoldable pub from_bytes : Bytes → Result SignatureError RecoverableSignature
unfolding normalised
from_bytes bytes =
    if length bytes == signature_len
    then (normalised (get_or bytes 64 0) >>= λ v.
        ok (record { r = take 32 bytes; s = take 32 (drop 32 bytes); v = v }))
    else err (bad_length (length bytes))

unfoldable pub to_bytes : RecoverableSignature → Bytes
to_bytes g = g.r ++ g.s ++ g.v ∷ []

-- The last byte is raised by 27, as a `u8`.
pub to_legacy_bytes : RecoverableSignature → Bytes
to_legacy_bytes g = g.r ++ g.s ++ ((g.v + 27) % 256) ∷ []

pub from_str : (Bytes → Result Bytes Bytes) → Bytes → Result SignatureError RecoverableSignature
from_str hex_decode s = map_err hex (hex_decode (strip_0x s)) >>= from_bytes

-- `k256::ecdsa`: a signature is its 64 bytes `r || s`, if the scalars are accepted.
pub record Ecdsa : Type 1 where
  pub Sig : Type 0
  pub keys : Keys
  pub sig_from_slice : Bytes → Result Bytes Sig
  pub sig_to_bytes : Sig → Bytes
  pub recovery_from_byte : ℕ → Option ℕ
  pub recover : Bytes → Sig → ℕ → Result Bytes keys.VerifyingKey

module _ (k : Ecdsa) where
  pub from_signature : k.Sig → ℕ → RecoverableSignature
  from_signature sig recovery_id =
      let bytes = k.sig_to_bytes sig in
      record { r = take 32 bytes; s = drop 32 bytes; v = recovery_id }

  pub split : RecoverableSignature → Result SignatureError (k.Sig × ℕ)
  split g = map_err ecdsa (k.sig_from_slice (g.r ++ g.s)) >>= λ sig.
      ok_or (k.recovery_from_byte g.v) (bad_recovery_id g.v) >>= λ id. ok (sig, id)

  pub recover_address_from_prehash : RecoverableSignature → Bytes → Result SignatureError Address
  recover_address_from_prehash g prehash = split g >>= λ (sig, id).
      map_err ecdsa (k.recover prehash sig id) >>= λ key. ok (from_public_key k.keys key)
