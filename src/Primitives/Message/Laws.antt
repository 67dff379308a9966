-- ===== src/Primitives/Message/Laws.antt =====
-- What a message signature is bound to.
use tronz.Prelude.{
  ◌^◌, ◌<◌, ◌≡◌, ◌↔◌, refl, true, ◌∷◌, ◌++◌, Bytes, codes, length, All, ok, arith, inl, inr,
  bytes_eq_iff, Result-cases,
}
use tronz.Primitives.Address.{Address}
use tronz.Primitives.Amount.{decimal_u64}
use tronz.Primitives.Amount.Decimal.{IsDigit, value, decimal-IsDigit, value-decimal}
use tronz.Primitives.Signature.{RecoverableSignature, Ecdsa, recover_address_from_prehash}
use tronz.Primitives.Message.{prefixed, verify_message, recover_message_address, hash_message}

-- What a message of fewer than 10 ^ 20 bytes is signed as: the 22 bytes of the prefix, the digits of the
-- message's length, which read back as that length, and the message itself; of these the hash is taken.
pub hash_message-preimage :
    (k : Ecdsa) (m : Bytes)
    → length m < 10 ^ 20
    → (digits : Bytes) × (hash_message k m
        ≡ k.keys.keccak256 (0x19 ∷ codes "TRON Signed Message:" ++ 10 ∷ digits ++ m))
      × All IsDigit digits
      × (value 0 digits ≡ length m)
unfolding hash_message prefixed
hash_message-preimage k m h =
    (decimal_u64 (length m), refl, decimal-IsDigit 19 (length m), value-decimal 19 (length m) h)

-- A signature verifies exactly for the address that is recovered from it.
pub verify_message_iff :
    (k : Ecdsa) (m : Bytes) (g : RecoverableSignature) (a : Address)
    → (verify_message k m g a ≡ true) ↔ (recover_message_address k m g ≡ ok a)
unfolding verify_message
verify_message_iff k m g a = elim (Result-cases (recover_message_address k m g)) [
  | inl (b, e) ↦ rw e (ground (arith, bytes_eq_iff b.bytes a.bytes))
  | inr (x, e) ↦ rw e (ground arith)
]

pub recover_message_address-hash :
    (k : Ecdsa) (m : Bytes) (g : RecoverableSignature)
    → recover_message_address k m g ≡ recover_address_from_prehash k g (hash_message k m)
unfolding recover_message_address
recover_message_address-hash k m g = refl
