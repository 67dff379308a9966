-- ===== src/Primitives/Signature/Tests.antt =====
-- Runs of crates/primitives/src/signature.rs at concrete inputs.
use tronz.Prelude.{ℕ, ◌≡◌, ◌↔◌, ◌⊎◌, refl, ok, some, ◌∷◌, replicate, arith}
use tronz.Primitives.Signature.{
  RecoverableSignature, Ecdsa, from_bytes, to_bytes, to_legacy_bytes, IsSignature,
}
use tronz.Primitives.Signature.Wire.{from_bytes-to_bytes, from_bytes_iff}

abbrev sample : RecoverableSignature
sample = record { r = replicate 32 1; s = replicate 32 2; v = 1 }

-- One signature, and one key.
abbrev toy : Ecdsa
toy = record {
  Sig = Unit {0};
  keys = record {
    VerifyingKey = ℕ;
    keccak256 = λ _. replicate 32 9;
    uncompressed = λ k. 4 ∷ replicate 64 k;
  };
  sig_from_slice = λ _. ok tt;
  sig_to_bytes = λ _. replicate 64 5;
  recovery_from_byte = λ n. some n;
  recover = λ _ _ id. ok id;
}

from_bytes-to_bytes_example :
    (from_bytes (to_bytes sample) ≡ ok sample) × (from_bytes (to_legacy_bytes sample) ≡ ok sample)
from_bytes-to_bytes_example = from_bytes-to_bytes sample (refl, refl, omega arith)

from_bytes_iff_example : (from_bytes (to_legacy_bytes sample) ≡ ok sample) ↔ (
    IsSignature sample
    × ((to_legacy_bytes sample ≡ to_bytes sample)
        ⊎ (to_legacy_bytes sample ≡ to_legacy_bytes sample)))
from_bytes_iff_example = from_bytes_iff (to_legacy_bytes sample) sample
