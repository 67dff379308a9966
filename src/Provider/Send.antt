-- ===== src/Provider/Send.antt =====
-- How a request becomes a transaction on the network: crates/provider/src/provider/mod.rs
-- (`build_via_transport`, `broadcast`), crates/provider/src/provider/builder.rs (`FilledProvider`) and the
-- signing half of crates/provider/src/fillers/mod.rs. The transport and the wallet are parameters: a
-- transport has one building call for each kind of contract.
pub mod Sent
pub mod Fields
pub mod Asked
mod Tests
use tronz.Prelude.{
  ℕ, ◌≡◌, Bool, true, false, ◌||◌, Option, none, some, List, [], ◌∷◌, Bytes, Result, ok, err, ◌>>=◌,
  map_err, ok_or, bytes_eq, if◌then◌else◌,
}
use tronz.Primitives.Address.{Address, address_zero}
use tronz.Primitives.Signature.{RecoverableSignature}
use tronz.RpcTypes.Contract.{ContractType, owner_address}
use tronz.RpcTypes.Transaction.{
  TransactionRequest, RawTransaction, SignedTransaction, Proto, apply_request_fields,
}
use tronz.Provider.Error.{
  RpcError, TransportErrorKind, transport, promote, broadcast_error, local_usage,
  missing_owner_address, missing_contract, no_signer, signer_failed, of_response,
}
use tronz.Provider.Fillers.{TxFiller, Node, State, Step, and_then}

pub record Transport : Type 0 where
  pub build : ContractType → Result TransportErrorKind RawTransaction
  pub broadcast_transaction : SignedTransaction → Result TransportErrorKind (Unit {0})

pub record TronNetworkWallet : Type 0 where
  pub default_signer_address : Address
  pub has_signer_for : Address → Bool
  pub sign_hash_with : Address → Bytes → Result Bytes RecoverableSignature

-- `HasSigner::sign_with`; `none` is a chain with no wallet.
abbrev pub SignWith : Type 0
SignWith = Option Address → Bytes → Option (Result Bytes RecoverableSignature)

abbrev pub no_wallet : SignWith
no_wallet key hash = none

-- The key of `WalletFiller`.
abbrev pub signing_key : TronNetworkWallet → Bool → Option Address → Address
signing_key w strict none = w.default_signer_address
signing_key w strict (some owner) =
    if strict || w.has_signer_for owner then owner else w.default_signer_address

unfoldable pub wallet_sign_with : TronNetworkWallet → Bool → SignWith
wallet_sign_with w strict key hash = some (w.sign_hash_with (signing_key w strict key) hash)

abbrev pub or_else {ℓ} : {A : Type ℓ} → Option A → Option A → Option A
or_else none b = b
or_else (some a) b = some a

-- `JoinFill` asks the filler on the right first.
unfoldable pub join_sign_with : SignWith → SignWith → SignWith
join_sign_with left right key hash = or_else (right key hash) (left key hash)

module _ (p : Proto) (t : Transport) where
  pub build_via_transport : TransactionRequest → Result RpcError RawTransaction
  build_via_transport req = do
    contract ← ok_or req.contract (local_usage missing_contract)
    raw ← map_err promote (t.build contract)
    map_err (λ e. transport (of_response e))
        (apply_request_fields p raw (record req { contract = none }))

  -- `FilledProvider::build_transaction`, over a root provider.
  pub build_transaction : TxFiller → Node → TransactionRequest → State → Step RawTransaction
  build_transaction filler node req s =
      let filled = filler.fill node (filler.fill_sync req) s in
      and_then filled.0 filled.1 (λ req' s'. (s', build_via_transport (filler.fill_sync req')))

-- What was put on the network, the state of the fillers, and the outcome: the id to wait for.
pub record Sending : Type 0 where
  pub sent : List SignedTransaction
  pub state : State
  pub outcome : Result RpcError Bytes

abbrev pub key_of : Option ContractType → Option Address
key_of none = none
key_of (some c) = some (owner_address c)

abbrev pub is_zero : Option Address → Bool
is_zero none = false
is_zero (some a) = bytes_eq a.bytes address_zero.bytes

module _ (p : Proto) (t : Transport) (filler : TxFiller) (sign_with : SignWith) where
  abbrev pub acknowledged : Bytes → Result TransportErrorKind (Unit {0}) → Result RpcError Bytes
  acknowledged tx_id (ok u) = ok tx_id
  acknowledged tx_id (err e) = err (broadcast_error tx_id e)

  pub broadcast : SignedTransaction → State → Sending
  broadcast tx s = record {
    sent = tx ∷ [];
    state = s;
    outcome = acknowledged tx.raw.tx_id (t.broadcast_transaction tx);
  }

  abbrev pub after_signing :
      RawTransaction → State → Option (Result Bytes RecoverableSignature) → Sending
  after_signing raw s none = record { sent = []; state = s; outcome = err (local_usage no_signer) }
  after_signing raw s (some (err m)) = record {
    sent = [];
    state = s;
    outcome = err (local_usage (signer_failed m));
  }
  after_signing raw s (some (ok g)) = broadcast (record { raw = raw; signatures = g ∷ [] }) s

  abbrev pub after_building : Option Address → Step RawTransaction → Sending
  after_building key (s, err e) = record { sent = []; state = s; outcome = err e }
  after_building key (s, ok raw) = after_signing raw s (sign_with key raw.tx_id)

  pub send_transaction : Node → TransactionRequest → State → Sending
  unfolding owner_address
  send_transaction node req s =
      if is_zero (key_of req.contract)
      then record { sent = []; state = s; outcome = err (local_usage missing_owner_address) }
      else after_building (key_of req.contract) (build_transaction p t filler node req s)
