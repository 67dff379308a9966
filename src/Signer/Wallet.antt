-- ===== src/Signer/Wallet.antt =====
-- crates/signer/src/wallet.rs: credentials by address. The hash map is an association list with one
-- entry for each address.
pub mod Defaults
pub mod Routing
mod Tests
use tronz.Prelude.{
  ℕ, Bool, true, false, ◌||◌, Option, none, some, List, [], ◌∷◌, Bytes, Result, ok, err, ◌>>=◌,
  ok_or, map, if◌then◌else◌,
}
use tronz.Primitives.Address.{Address, address_zero}
use tronz.Primitives.Signature.{RecoverableSignature}
use tronz.RpcTypes.Permissions.{address_eq, among}
use tronz.Signer.Local.{SignerError, missing_credential, not_registered}

-- `dyn TronSigner`.
pub record TronSigner : Type 0 where
  pub address : Address
  pub sign_hash : Bytes → Result SignerError RecoverableSignature
  pub sign_message : Bytes → Result SignerError RecoverableSignature

pub record TronWallet : Type 0 where
  pub default : Address
  pub signers : List (Address × TronSigner)

abbrev pub empty_wallet : TronWallet
empty_wallet = record { default = address_zero; signers = [] }

pub get_signer : List (Address × TronSigner) → Address → Option TronSigner
get_signer [] a = none
get_signer (e ∷ es) a = if address_eq e.0 a then some e.1 else get_signer es a

-- `HashMap::insert`.
pub put_signer : List (Address × TronSigner) → Address → TronSigner → List (Address × TronSigner)
put_signer [] a c = (a, c) ∷ []
put_signer (e ∷ es) a c =
    let rest = put_signer es a c in if address_eq e.0 a then (e.0, c) ∷ es else e ∷ rest

pub register_signer : TronWallet → TronSigner → TronWallet
unfolding put_signer
register_signer w s = record w { signers = put_signer w.signers s.address s }

pub register_default_signer : TronWallet → TronSigner → TronWallet
unfolding register_signer
register_default_signer w s = register_signer (record w { default = s.address }) s

pub new : TronSigner → TronWallet
unfolding register_default_signer
new s = register_default_signer empty_wallet s

abbrev pub is_some {ℓ} : {A : Type ℓ} → Option A → Bool
is_some none = false
is_some (some a) = true

pub has_signer_for : TronWallet → Address → Bool
unfolding get_signer
has_signer_for w a = is_some (get_signer w.signers a)

pub set_default_signer : TronWallet → Address → Result SignerError TronWallet
unfolding has_signer_for
set_default_signer w a =
    if has_signer_for w a then ok (record w { default = a }) else err (not_registered a)

-- `none` is the panic of a wallet with no credentials.
pub default_signer : TronWallet → Option TronSigner
unfolding get_signer
default_signer w = get_signer w.signers w.default

pub signer_by_address : TronWallet → Address → Option TronSigner
unfolding get_signer
signer_by_address w a = get_signer w.signers a

pub require_signer : TronWallet → Address → Result SignerError TronSigner
unfolding signer_by_address
require_signer w key = ok_or (signer_by_address w key) (missing_credential key)

pub signer_addresses : TronWallet → List Address
signer_addresses w = map (λ e. e.0) w.signers

pub sign_hash_with : TronWallet → Address → Bytes → Result SignerError RecoverableSignature
unfolding require_signer
sign_hash_with w key hash = require_signer w key >>= λ s. s.sign_hash hash

pub sign_message_with : TronWallet → Address → Bytes → Result SignerError RecoverableSignature
unfolding require_signer
sign_message_with w key message = require_signer w key >>= λ s. s.sign_message message

pub sign_wallet_hash : TronWallet → Bytes → Result SignerError RecoverableSignature
unfolding sign_hash_with
sign_wallet_hash w hash = sign_hash_with w w.default hash

-- The loop of `sign_hash_with_many`, with the keys that have signed, the latest first.
pub sign_many :
    TronWallet
    → List Address
    → List Address
    → Bytes
    → Result SignerError (List RecoverableSignature)
unfolding sign_hash_with
sign_many w [] signed hash = ok []
sign_many w (key ∷ keys) signed hash =
    let skip = sign_many w keys signed hash in
    let go = sign_many w keys (key ∷ signed) hash in
    if among signed key then skip else (sign_hash_with w key hash >>= λ g. go >>= λ gs. ok (g ∷ gs))

pub sign_hash_with_many :
    TronWallet → List Address → Bytes → Result SignerError (List RecoverableSignature)
unfolding sign_many
sign_hash_with_many w keys hash = sign_many w keys [] hash
