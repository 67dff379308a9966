-- ===== src/Signer/Local/Recovery.antt =====
-- The signatures of a signer, as k256 recovers them.
use tronz.Prelude.{
  ℕ, ◌≡◌, refl, sym, ap, ◌∙◌, subst, true, Bytes, length, Result, ok, map_err, bind_ok_then,
  ok-injective, map_err-ok, some, ◌==◌, if-cases, inl, inr,
}
use tronz.Primitives.Address.{from_public_key, strip_0x}
use tronz.Primitives.Signature.{RecoverableSignature, Ecdsa, recover_address_from_prehash}
use tronz.Primitives.Signature.Wire.{recover-from_signature}
use tronz.Primitives.Message.{hash_message, verify_message}
use tronz.Primitives.Message.Laws.{verify_message_iff, recover_message_address-hash}
use tronz.Signer.Local.{
  SigningKeys, LocalSigner, from_signing_key, from_array, from_slice, from_hex, hex_failed,
  sign_hash, sign_message, ecdsa_failed, invalid_key,
}

-- What k256 documents: a signature has 64 bytes, which are read back as the signature, its recovery id
-- is read back from its byte, and the key that signed is recovered from what it signed.
pub record Recovers {k : Ecdsa} (s : SigningKeys k) (key : s.SigningKey) (hash : Bytes)
    (sig : k.Sig) (id : ℕ) : Type 0 where
  pub sixty_four : length (k.sig_to_bytes sig) ≡ 64
  pub reads : k.sig_from_slice (k.sig_to_bytes sig) ≡ ok sig
  pub known : k.recovery_from_byte id ≡ some id
  pub recovers : k.recover hash sig id ≡ ok (s.verifying_key key)

-- The address of a signer is that of its key.
abbrev pub IsSigner : {k : Ecdsa} (s : SigningKeys k) → LocalSigner s → Type 0
IsSigner {k} s signer = signer.address ≡ from_public_key k.keys (s.verifying_key signer.key)

module _ {k : Ecdsa} (s : SigningKeys k) where
  from_array-IsSigner :
      (bytes : Bytes) (signer : LocalSigner s) → from_array s bytes ≡ ok signer → IsSigner s signer
  unfolding from_array from_signing_key
  from_array-IsSigner bytes signer h =
      bind_ok_then (map_err invalid_key (s.key_from_bytes bytes)) _ h
        λ key made built. subst (IsSigner s) (ok-injective built) refl

  from_slice-IsSigner :
      (bytes : Bytes) (signer : LocalSigner s) → from_slice s bytes ≡ ok signer → IsSigner s signer
  unfolding from_slice
  from_slice-IsSigner bytes signer h = elim (if-cases (length bytes == 32) _ _ h) [
    | inl read ↦ from_array-IsSigner bytes signer read
    | inr wrong ↦ absurd (cc wrong)
  ]

  pub from_hex-IsSigner :
      (hex_decode : Bytes → Result Bytes Bytes) (text : Bytes) (signer : LocalSigner s)
      → from_hex s hex_decode text ≡ ok signer
      → IsSigner s signer
  unfolding from_hex
  from_hex-IsSigner hex_decode text signer h =
      bind_ok_then (map_err hex_failed (hex_decode (strip_0x text))) _ h
        λ bytes read made. from_slice-IsSigner bytes signer made

  -- A signature that a signer makes is recovered to the signer's address, and a message that it signs
  -- verifies for this address, if k256 recovers the key from what the key signed.
  pub verify_message-sign_message :
      (signer : LocalSigner s) (message : Bytes) (g : RecoverableSignature)
      → IsSigner s signer
      → ((sig : k.Sig) (id : ℕ)
          → s.sign_prehash_recoverable signer.key (hash_message k message) ≡ ok (sig, id)
          → Recovers s signer.key (hash_message k message) sig id)
      → sign_message s signer message ≡ ok g
      → (recover_address_from_prehash k g (hash_message k message) ≡ ok signer.address)
        × (verify_message k message g signer.address ≡ true)
  unfolding sign_message sign_hash
  verify_message-sign_message signer message g is_signer laws h =
      bind_ok_then
        (map_err ecdsa_failed (s.sign_prehash_recoverable signer.key (hash_message k message))) _ h
        λ (sig, id) signed made.
          let law = laws sig id (map_err-ok ecdsa_failed _ signed) in
          let found : recover_address_from_prehash k g (hash_message k message)
              ≡ ok signer.address =
            ap (λ g. recover_address_from_prehash k g (hash_message k message))
              (sym (ok-injective made))
            ∙ recover-from_signature k sig id (hash_message k message) (s.verifying_key signer.key)
                law.sixty_four law.reads law.known law.recovers
            ∙ ap ok (sym is_signer) in
          (
            found,
            (verify_message_iff k message g signer.address).1
                (recover_message_address-hash k message g ∙ found),
          )
