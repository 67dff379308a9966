-- ===== src/Primitives/Message.antt =====
-- crates/primitives/src/message.rs: hashing and verification of signed messages.
pub mod Laws
mod Tests
use tronz.Prelude.{
  ℕ, Bool, false, List, [], ◌∷◌, ◌++◌, Bytes, codes, length, Result, ok, err, bytes_eq,
}
use tronz.Primitives.Address.{Address, Keys}
use tronz.Primitives.Amount.{decimal_u64}
use tronz.Primitives.Signature.{
  RecoverableSignature, SignatureError, Ecdsa, recover_address_from_prehash,
}

-- `b"\x19TRON Signed Message:\n"`.
abbrev pub tron_message_prefix : Bytes
tron_message_prefix = 0x19 ∷ (codes "TRON Signed Message:" ++ 10 ∷ [])

pub prefixed : Bytes → Bytes
prefixed message = tron_message_prefix ++ (decimal_u64 (length message) ++ message)

module _ (k : Ecdsa) where
  pub hash_message : Bytes → Bytes
  unfolding prefixed
  hash_message message = k.keys.keccak256 (prefixed message)

  pub recover_message_address : Bytes → RecoverableSignature → Result SignatureError Address
  recover_message_address message g = recover_address_from_prehash k g (hash_message message)

  pub verify_message : Bytes → RecoverableSignature → Address → Bool
  verify_message message g address = elim (recover_message_address message g) [
    | ok recovered ↦ bytes_eq recovered.bytes address.bytes
    | err _ ↦ false
  ]
