-- ===== src/Signer/Local/Tests.antt =====
-- Runs of crates/signer/src/local.rs at concrete inputs.
use tronz.Prelude.{ℕ, ◌≡◌, ap, sym, refl, true, ok, some, [], ◌∷◌, replicate, length, ok-injective}
use tronz.Primitives.Address.{from_public_key}
use tronz.Primitives.Signature.{
  RecoverableSignature, Ecdsa, from_signature, recover_address_from_prehash,
}
use tronz.Primitives.Message.{hash_message, verify_message}
use tronz.Signer.Local.{SigningKeys, LocalSigner, sign_message, sign_hash}
use tronz.Signer.Local.Recovery.{Recovers, verify_message-sign_message}

-- Keys that are numbers: the recovery id of a signature is the key that made it.
abbrev toy : Ecdsa
toy = record {
  Sig = Unit {0};
  keys = record {
    VerifyingKey = ℕ;
    keccak256 = λ _. replicate 32 9;
    uncompressed = λ k. 4 ∷ replicate 64 k;
  };
  sig_from_slice = λ _. ok tt;
  sig_to_bytes = λ _. replicate 64 5;
  recovery_from_byte = λ n. some n;
  recover = λ _ _ id. ok id;
}

abbrev toy_keys : SigningKeys toy
toy_keys = record {
  SigningKey = ℕ;
  key_from_bytes = λ bs. ok (length bs);
  key_to_bytes = λ k. replicate k 0;
  verifying_key = λ k. k;
  sign_prehash_recoverable = λ k _. ok (tt, k);
}

abbrev first_key : LocalSigner toy_keys
first_key = record { key = 1; address = from_public_key toy.keys 1 }

abbrev made : RecoverableSignature
made = from_signature toy tt 1

signed : sign_message toy_keys first_key (7 ∷ []) ≡ ok made
unfolding sign_message sign_hash
signed = refl

first_key-Recovers :
    (sig : Unit) (id : ℕ)
    → toy_keys.sign_prehash_recoverable 1 (hash_message toy (7 ∷ [])) ≡ ok (sig, id)
    → Recovers toy_keys 1 (hash_message toy (7 ∷ [])) sig id
first_key-Recovers sig id h = record {
  sixty_four = refl;
  reads = refl;
  known = refl;
  recovers = ap (λ r. ok r.1) (sym (ok-injective h));
}

verify_message-sign_message_example :
    (recover_address_from_prehash toy made (hash_message toy (7 ∷ [])) ≡ ok first_key.address)
    × (verify_message toy (7 ∷ []) made first_key.address ≡ true)
verify_message-sign_message_example =
    verify_message-sign_message toy_keys first_key (7 ∷ []) made refl first_key-Recovers signed
