-- ===== src/Provider/Send/Sent.antt =====
-- What a send puts on the network.
use tronz.Prelude.{
  ◌≡◌, ◌⊎◌, inl, inr, refl, sym, ap, ◌∙◌, Bool, true, false, if◌then◌else◌, Option, none, some, [],
  ◌∷◌, Bytes, Result, ok, err, Result-cases, Bool-cases, some-injective,
}
use tronz.Primitives.Address.{Address}
use tronz.Primitives.Signature.{RecoverableSignature}
use tronz.RpcTypes.Transaction.{TransactionRequest, RawTransaction, SignedTransaction, Proto}
use tronz.Provider.Error.{RpcError, TransportErrorKind, broadcast_unknown, promote, error_tx_id}
use tronz.Provider.Error.Broadcasts.{Refusal, broadcast_error_cases}
use tronz.Provider.Fillers.{TxFiller, Node, State, Step}
use tronz.Provider.Send.{
  Transport, TronNetworkWallet, SignWith, Sending, no_wallet, signing_key, wallet_sign_with,
  join_sign_with, build_transaction, send_transaction, broadcast, is_zero, key_of, after_signing,
  after_building, acknowledged,
}

-- The key that a wallet signs for an owner with: the owner's own, where the wallet holds it or is strict,
-- and otherwise its default one.
abbrev pub SigningKey : TronNetworkWallet → Bool → Option Address → Address → Type 0
SigningKey w strict none key = key ≡ w.default_signer_address
SigningKey w strict (some owner) key =
    (((strict ≡ true) ⊎ (w.has_signer_for owner ≡ true)) × (key ≡ owner))
    ⊎ ((strict ≡ false) × (w.has_signer_for owner ≡ false) × (key ≡ w.default_signer_address))

-- The signing of a chain of fillers is that of one wallet.
abbrev pub SignsBy : TronNetworkWallet → Bool → SignWith → Type 0
SignsBy w strict sign_with =
    (key : Option Address) (hash : Bytes) → sign_with key hash ≡ wallet_sign_with w strict key hash

-- Fillers without a wallet, on either side of the one with it, do not change the signing.
pub join_sign_with-SignsBy :
    (w : TronNetworkWallet) (strict : Bool) (sign_with : SignWith)
    → SignsBy w strict sign_with
    → SignsBy w strict (join_sign_with sign_with no_wallet)
      × SignsBy w strict (join_sign_with no_wallet sign_with)
unfolding join_sign_with wallet_sign_with
join_sign_with-SignsBy w strict sign_with signs = (signs, λ key hash. rw (signs key hash) refl)

signing_key-SigningKey :
    (w : TronNetworkWallet) (strict : Bool) (owner : Option Address)
    → SigningKey w strict owner (signing_key w strict owner)
signing_key-SigningKey w strict none = refl
signing_key-SigningKey w true (some owner) = inl (inl refl, refl)
signing_key-SigningKey w false (some owner) = elim (Bool-cases (w.has_signer_for owner)) [
  | inl held ↦ inl (inr held, rw held refl)
  | inr absent ↦ inr (refl, absent, rw absent refl)
]

-- What the caller is told of a broadcast: its id, if the node took it; a refusal as it is, with no id; and of
-- any other failure the id of the transaction, which may be on the network.
abbrev pub Reported : Transport → SignedTransaction → Result RpcError Bytes → Type 0
Reported t tx outcome =
    ((t.broadcast_transaction tx ≡ ok tt) × (outcome ≡ ok tx.raw.tx_id))
    ⊎ ((e : TransportErrorKind) × (t.broadcast_transaction tx ≡ err e)
        × ((Refusal e × (outcome ≡ err (promote e)) × (error_tx_id (promote e) ≡ none))
            ⊎ ((Refusal e → ⊥) × (outcome ≡ err (broadcast_unknown tx.raw.tx_id e)))))

broadcast-Reported :
    (p : Proto) (t : Transport) (filler : TxFiller) (sign_with : SignWith) (tx : SignedTransaction)
    (s : State)
    → Reported t tx (broadcast p t filler sign_with tx s).outcome
unfolding broadcast
broadcast-Reported p t filler sign_with tx s = elim (Result-cases (t.broadcast_transaction tx)) [
  | inl (u, took) ↦ inl (took, ap (acknowledged p t filler sign_with tx.raw.tx_id) took)
  | inr (e, lost) ↦
      let told = ap (acknowledged p t filler sign_with tx.raw.tx_id) lost in
      inr (
        e,
        lost,
        elim (broadcast_error_cases tx.raw.tx_id e) [
          | inl (refusal, is, no_id) ↦ inl (refusal, told ∙ ap err is, no_id)
          | inr (open_end, is) ↦ inr (open_end, told ∙ ap err is)
        ],
      )
]

module _ (p : Proto) (t : Transport) (filler : TxFiller) (sign_with : SignWith)
    (w : TronNetworkWallet) (strict : Bool) (node : Node) (req : TransactionRequest) (s : State)
    (signs : SignsBy w strict sign_with) where
  -- The transaction was put on the network, with one signature over its id by the key that the wallet has
  -- for the owner, and the outcome tells what is known of it.
  abbrev pub Delivered : Sending → Type 0
  Delivered r =
      (raw : RawTransaction) × (g : RecoverableSignature) × (key : Address) × (r.sent
        ≡ record { raw = raw; signatures = g ∷ [] } ∷ [])
      × ((build_transaction p t filler node req s).1 ≡ ok raw)
      × SigningKey w strict (key_of req.contract) key
      × (w.sign_hash_with key raw.tx_id ≡ ok g)
      × (is_zero (key_of req.contract) ≡ false)
      × Reported t (record { raw = raw; signatures = g ∷ [] }) r.outcome

  abbrev pub NothingSent : Sending → Type 0
  NothingSent r = (r.sent ≡ []) × ((e : RpcError) × (r.outcome ≡ err e))

  signing-cases :
      (raw : RawTransaction) (s' : State) (o : Option (Result Bytes RecoverableSignature))
      → sign_with (key_of req.contract) raw.tx_id ≡ o
      → (build_transaction p t filler node req s).1 ≡ ok raw
      → is_zero (key_of req.contract) ≡ false
      → Delivered (after_signing p t filler sign_with raw s' o)
        ⊎ NothingSent (after_signing p t filler sign_with raw s' o)
  unfolding broadcast wallet_sign_with
  signing-cases raw s' none signed built owned = inr (refl, (_, refl))
  signing-cases raw s' (some (err m)) signed built owned = inr (refl, (_, refl))
  signing-cases raw s' (some (ok g)) signed built owned = inl (
    raw,
    g,
    signing_key w strict (key_of req.contract),
    refl,
    built,
    signing_key-SigningKey w strict (key_of req.contract),
    some-injective (sym (signs (key_of req.contract) raw.tx_id) ∙ signed),
    owned,
    broadcast-Reported p t filler sign_with (record { raw = raw; signatures = g ∷ [] }) s',
  )

  building-cases :
      (built : Step RawTransaction)
      → (build_transaction p t filler node req s).1 ≡ built.1
      → is_zero (key_of req.contract) ≡ false
      → Delivered (after_building p t filler sign_with (key_of req.contract) built)
        ⊎ NothingSent (after_building p t filler sign_with (key_of req.contract) built)
  building-cases (s', err e) h owned = inr (refl, (e, refl))
  building-cases (s', ok raw) h owned =
      signing-cases raw s' (sign_with (key_of req.contract) raw.tx_id) refl h owned

  owner-cases :
      (b : Bool) (nothing built : Sending)
      → NothingSent nothing
      → (b ≡ false → Delivered built ⊎ NothingSent built)
      → Delivered (if b then nothing else built) ⊎ NothingSent (if b then nothing else built)
  owner-cases true nothing built none_sent more = inr none_sent
  owner-cases false nothing built none_sent more = more refl

  -- A send puts at most one transaction on the network. One that was put there is the one that was
  -- built, for an owner who is not the zero address, with one signature over its id, by the owner's key if
  -- the wallet holds it or is strict and by the wallet's default key otherwise. The outcome is its
  -- id if the node took it, the node's answer with no id if the node refused it, and an error with
  -- its id on any other failure. If nothing was put there, the outcome is an error.
  pub send_transaction-sent :
      Delivered (send_transaction p t filler sign_with node req s)
      ⊎ NothingSent (send_transaction p t filler sign_with node req s)
  unfolding send_transaction
  send_transaction-sent =
      owner-cases (is_zero (key_of req.contract)) _ _ (refl, (_, refl))
        (building-cases (build_transaction p t filler node req s) refl)
