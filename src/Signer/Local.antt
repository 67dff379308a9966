-- ===== src/Signer/Local.antt =====
-- crates/signer/src/local.rs and the messages of crates/signer/src/signer.rs: a key that is held in
-- memory. The keys of k256 and the decoding of hex are parameters.
pub mod Recovery
mod Tests
use tronz.Prelude.{
  ℕ, Option, none, some, List, [], ◌∷◌, Bytes, length, Result, ok, err, ◌>>=◌, map_err, ◌==◌,
  if◌then◌else◌,
}
use tronz.Primitives.Address.{Address, from_public_key, strip_0x}
use tronz.Primitives.Signature.{RecoverableSignature, Ecdsa, from_signature}
use tronz.Primitives.Message.{hash_message}

-- `expected_32_bytes` is the message of `InvalidKey` for another length; `missing_credential` and
-- `not_registered` are those of the wallet.
pub data SignerError : Type 0 where
  ecdsa_failed hex_failed invalid_key : Bytes → SignerError
  expected_32_bytes : ℕ → SignerError
  missing_credential not_registered : Address → SignerError

pub record SigningKeys (k : Ecdsa) : Type 1 where
  pub SigningKey : Type 0
  pub key_from_bytes : Bytes → Result Bytes SigningKey
  pub key_to_bytes : SigningKey → Bytes
  pub verifying_key : SigningKey → k.keys.VerifyingKey
  pub sign_prehash_recoverable : SigningKey → Bytes → Result Bytes (k.Sig × ℕ)

pub record LocalSigner {k : Ecdsa} (s : SigningKeys k) : Type 0 where
  pub key : s.SigningKey
  pub address : Address

module _ {k : Ecdsa} (s : SigningKeys k) where
  pub from_signing_key : s.SigningKey → LocalSigner s
  from_signing_key key = record {
    key = key;
    address = from_public_key k.keys (s.verifying_key key);
  }

  pub from_array : Bytes → Result SignerError (LocalSigner s)
  unfolding from_signing_key
  from_array bytes =
      map_err invalid_key (s.key_from_bytes bytes) >>= λ key. ok (from_signing_key key)

  pub from_slice : Bytes → Result SignerError (LocalSigner s)
  unfolding from_array
  from_slice bytes =
      if length bytes == 32 then from_array bytes else err (expected_32_bytes (length bytes))

  pub from_hex : (Bytes → Result Bytes Bytes) → Bytes → Result SignerError (LocalSigner s)
  unfolding from_slice
  from_hex hex_decode text = map_err hex_failed (hex_decode (strip_0x text)) >>= from_slice

  pub to_bytes : LocalSigner s → Bytes
  to_bytes signer = s.key_to_bytes signer.key

  pub sign_hash : LocalSigner s → Bytes → Result SignerError RecoverableSignature
  sign_hash signer hash =
      map_err ecdsa_failed (s.sign_prehash_recoverable signer.key hash) >>= λ (sig, id).
      ok (from_signature k sig id)

  pub sign_message : LocalSigner s → Bytes → Result SignerError RecoverableSignature
  unfolding sign_hash
  sign_message signer message = sign_hash signer (hash_message k message)
