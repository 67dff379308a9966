-- ===== src/Primitives/Message/Tests.antt =====
-- Runs of crates/primitives/src/message.rs at concrete inputs.
use tronz.Prelude.{ℕ, ◌≡◌, ok, some, [], ◌∷◌, ◌++◌, Bytes, codes, All, replicate, arith}
use tronz.Primitives.Signature.{RecoverableSignature, Ecdsa}
use tronz.Primitives.Amount.Decimal.{IsDigit, value}
use tronz.Primitives.Message.{hash_message}
use tronz.Primitives.Message.Laws.{hash_message-preimage}

abbrev sample : RecoverableSignature
sample = record { r = replicate 32 1; s = replicate 32 2; v = 1 }

-- One signature, and one key.
abbrev toy : Ecdsa
toy = record {
  Sig = Unit {0};
  keys = record {
    VerifyingKey = ℕ;
    keccak256 = λ _. replicate 32 9;
    uncompressed = λ k. 4 ∷ replicate 64 k;
  };
  sig_from_slice = λ _. ok tt;
  sig_to_bytes = λ _. replicate 64 5;
  recovery_from_byte = λ n. some n;
  recover = λ _ _ id. ok id;
}

hash_message-preimage_example :
    (digits : Bytes) × (hash_message toy (7 ∷ 8 ∷ [])
      ≡ toy.keys.keccak256 (0x19 ∷ codes "TRON Signed Message:" ++ 10 ∷ digits ++ 7 ∷ 8 ∷ []))
    × All IsDigit digits
    × (value 0 digits ≡ 2)
hash_message-preimage_example = hash_message-preimage toy (7 ∷ 8 ∷ []) (omega arith)
