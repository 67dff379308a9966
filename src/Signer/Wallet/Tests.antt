-- ===== src/Signer/Wallet/Tests.antt =====
-- Runs of crates/signer/src/wallet.rs at concrete inputs.
use tronz.Prelude.{ℕ, ◌≡◌, ◌⊎◌, refl, true, false, replicate, none, some, ok, [], ◌∷◌}
use tronz.Prelude.Int.{pos}
use tronz.Primitives.Address.{Address, address_zero}
use tronz.RpcTypes.Operations.{empty}
use tronz.RpcTypes.Permissions.{Permission, weight_of_all}
use tronz.RpcTypes.Permissions.Weights.{distinct}
use tronz.Signer.Wallet.{
  TronSigner, TronWallet, new, register_signer, default_signer, signer_by_address,
  sign_hash_with_many, empty_wallet,
}
use tronz.Signer.Wallet.Defaults.{
  Made, created, registered, Made-default_signer, register_all, default_signer-register_all,
}
use tronz.Signer.Wallet.Routing.{sign_hash_with_many-distinct, sign_each}

abbrev credential : Address → ℕ → TronSigner
credential a n = record {
  address = a;
  sign_hash = λ h. ok (record { r = h; s = replicate 32 n; v = 0 });
  sign_message = λ m. ok (record { r = m; s = replicate 32 n; v = 1 });
}

abbrev second : Address
second = record { bytes = 65 ∷ replicate 20 1 }

abbrev two_signers : TronWallet
two_signers = register_signer (new (credential address_zero 1)) (credential second 2)

two_signers-Made : Made true two_signers
two_signers-Made =
    registered (new (credential address_zero 1)) (credential second 2)
      (created (credential address_zero 1))

Made-default_signer_example :
    (((true ≡ true) × ((s : TronSigner) × (default_signer two_signers ≡ some s)))
      ⊎ ((true ≡ false) × (two_signers.default ≡ address_zero)))
    × ((s : TronSigner) → default_signer two_signers ≡ some s → s.address ≡ two_signers.default)
    × ((a : Address) (s : TronSigner) → signer_by_address two_signers a ≡ some s → s.address ≡ a)
Made-default_signer_example = Made-default_signer true two_signers two_signers-Made

abbrev third : Address
third = record { bytes = 65 ∷ replicate 20 2 }

default_signer-register_all_example :
    let w =
      register_signer (register_all empty_wallet (credential second 2 ∷ [])) (credential third 3) in
    (default_signer w ≡ none) × (signer_by_address w third ≡ some (credential third 3))
default_signer-register_all_example =
    default_signer-register_all (credential second 2 ∷ []) (credential third 3) (refl, tt) refl

abbrev one_key : Permission
one_key = record {
  id = pos 0;
  permission_name = [];
  threshold = pos 1;
  keys = (record { address = second; weight = pos 1 }) ∷ [];
  operations = empty;
}

sign_hash_with_many-distinct_example :
    (sign_hash_with_many two_signers (second ∷ second ∷ []) (replicate 32 7)
      ≡ sign_each two_signers (distinct [] (second ∷ second ∷ [])) (replicate 32 7))
    × (weight_of_all one_key (second ∷ second ∷ [])
        ≡ weight_of_all one_key (distinct [] (second ∷ second ∷ [])))
sign_hash_with_many-distinct_example =
    sign_hash_with_many-distinct two_signers (second ∷ second ∷ []) (replicate 32 7) one_key
