-- ===== src/Signer/Wallet/Routing.antt =====
-- Which credentials a wallet signs with.
use tronz.Prelude.{
  ◌≡◌, refl, sym, ap, ◌∙◌, List, [], ◌∷◌, Bytes, Result, ok, ◌>>=◌, Bool-cases, inl, inr,
}
use tronz.Prelude.Int.{pos}
use tronz.Primitives.Address.{Address}
use tronz.Primitives.Signature.{RecoverableSignature}
use tronz.RpcTypes.Permissions.{Permission, among, weight_of_all}
use tronz.RpcTypes.Permissions.Weights.{
  distinct, total_weight, weight_of_all-distinct, distinct-distinct,
}
use tronz.Signer.Local.{SignerError}
use tronz.Signer.Wallet.{TronWallet, sign_hash_with, sign_many, sign_hash_with_many}

-- Signing with each key of a list in turn.
pub sign_each : TronWallet → List Address → Bytes → Result SignerError (List RecoverableSignature)
sign_each w [] hash = ok []
sign_each w (key ∷ keys) hash =
    sign_hash_with w key hash >>= λ g. sign_each w keys hash >>= λ gs. ok (g ∷ gs)

sign_many-distinct :
    (w : TronWallet) (keys signed : List Address) (hash : Bytes)
    → sign_many w keys signed hash ≡ sign_each w (distinct signed keys) hash
unfolding sign_many sign_each distinct
sign_many-distinct w [] signed hash = refl
sign_many-distinct w (key ∷ keys) signed hash = elim (Bool-cases (among signed key)) [
  | inl old ↦ rw old (sign_many-distinct w keys signed hash)
  | inr new_key ↦ rw new_key (
      ap (λ r. sign_hash_with w key hash >>= λ g. r >>= λ gs. ok (g ∷ gs))
        (sign_many-distinct w keys (key ∷ signed) hash))
]

-- Signing with many keys is signing once with each distinct one, in order, and these carry the weight
-- of all the keys in every permission.
pub sign_hash_with_many-distinct :
    (w : TronWallet) (keys : List Address) (hash : Bytes) (p : Permission)
    → (sign_hash_with_many w keys hash ≡ sign_each w (distinct [] keys) hash)
      × (weight_of_all p keys ≡ weight_of_all p (distinct [] keys))
unfolding sign_hash_with_many
sign_hash_with_many-distinct w keys hash p = (
  sign_many-distinct w keys [] hash,
  weight_of_all-distinct p keys
      ∙ ap (λ ks. total_weight p ks (pos 0)) (sym (distinct-distinct keys []))
      ∙ sym (weight_of_all-distinct p (distinct [] keys)),
)
