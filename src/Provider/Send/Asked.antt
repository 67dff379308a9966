-- ===== src/Provider/Send/Asked.antt =====
-- What is signed and put on the network, for what was asked.
use tronz.Prelude.{
  ◌≡◌, inl, inr, refl, sym, ap, ◌∙◌, subst, Bool, true, some, List, [], ◌∷◌, Result, ok, err,
}
use tronz.Primitives.Address.{Address}
use tronz.Primitives.Signature.{RecoverableSignature}
use tronz.RpcTypes.Contract.{ContractType, owner_address}
use tronz.RpcTypes.Transaction.{TransactionRequest, RawTransaction, SignedTransaction, Proto}
use tronz.Provider.Error.{TransportErrorKind}
use tronz.Provider.Fillers.{TxFiller, Node, State, Step, and_then}
use tronz.Provider.Fillers.Keeps.{Keeps, Same}
use tronz.Provider.Transport.Built.{RoundTrips}
use tronz.Provider.Transport.Service.{Messages, WalletService}
use tronz.Provider.Transport.Requested.{Requested, is_compared}
use tronz.Provider.Send.{
  TronNetworkWallet, SignWith, build_via_transport, build_transaction, send_transaction, key_of,
}
use tronz.Provider.Send.Sent.{SignsBy, SigningKey, send_transaction-sent}
use tronz.Provider.Send.Fields.{grpc_transport, HasFields, build_via_transport-Requested}

module _ (p : Proto) (law : RoundTrips p) (m : Messages) (service : WalletService)
    (submit : SignedTransaction → Result TransportErrorKind (Unit {0})) (filler : TxFiller)
    (keeps : Keeps filler) (sign_with : SignWith) where
  -- The request, as the fillers have left it, whose fields the transaction has, and otherwise the node's.
  abbrev pub Filled : Node → TransactionRequest → State → ContractType → RawTransaction → Type 0
  Filled node req s c raw =
      (req' : TransactionRequest) × ((filler.fill node (filler.fill_sync req) s).1 ≡ ok req')
      × HasFields p m service c (filler.fill_sync req') raw

  built_of_request :
      (node : Node) (req : TransactionRequest) (s : State) (c : ContractType) (raw : RawTransaction)
      → req.contract ≡ some c
      → is_compared c ≡ true
      → (build_transaction p (grpc_transport p m service submit) filler node req s).1 ≡ ok raw
      → Requested p m c raw × Filled node req s c raw
  unfolding build_transaction
  built_of_request node req s c raw asked compared h =
      through (filler.fill node (filler.fill_sync req) s)
        (λ req' kept. keeps.async node (filler.fill_sync req) s req' kept ∙ keeps.sync req) refl h
    where
      through :
          (filled : Step TransactionRequest)
          → Same req.contract filled
          → (filler.fill node (filler.fill_sync req) s).1 ≡ filled.1
          → (and_then filled.0 filled.1 (λ req' s'. (
            s',
            build_via_transport p (grpc_transport p m service submit) (filler.fill_sync req'),
          ))).1
            ≡ ok raw
          → Requested p m c raw × Filled node req s c raw
      through (s', err e) kept from done = cc
      through (s', ok req') kept from done =
          let (order_met, fields) =
            build_via_transport-Requested p law m service submit (filler.fill_sync req') c raw
              (keeps.sync req' ∙ kept req' refl ∙ asked) compared done in
          (order_met, (req', from, fields))

  -- Whatever a send puts on the network carries exactly the contract of the request, and each field that
  -- the request names, as the fillers have left it; any other field is as the node built it. It carries one
  -- signature over its id, by the key of the contract's owner if the wallet holds it or is strict and
  -- by the wallet's default key otherwise. The node may be hostile, the fillers leave the
  -- contract alone and sign with this wallet, account ids are excluded, and what prost wrote is never
  -- read back as another transaction.
  pub send_transaction-Requested :
      (w : TronNetworkWallet) (strict : Bool) (node : Node) (req : TransactionRequest) (s : State)
      (c : ContractType) (tx : SignedTransaction)
      → SignsBy w strict sign_with
      → req.contract ≡ some c
      → is_compared c ≡ true
      → (send_transaction p (grpc_transport p m service submit) filler sign_with node req s).sent
        ≡ tx ∷ []
      → Requested p m c tx.raw
        × Filled node req s c tx.raw
        × ((g : RecoverableSignature) × (key : Address) × (tx.signatures ≡ g ∷ [])
            × SigningKey w strict (some (owner_address c)) key
            × (w.sign_hash_with key tx.raw.tx_id ≡ ok g))
  unfolding owner_address
  send_transaction-Requested w strict node req s c tx signs asked compared h =
      elim (send_transaction-sent p (grpc_transport p m service submit) filler sign_with w strict
        node req s signs) [
          | inl (raw, g, key, sent, built, keyed, signed, _, _) ↦
              let same : record { raw = raw; signatures = g ∷ [] } ≡ tx = head_eq (sym sent ∙ h) in
              let (order_met, fields) = built_of_request node req s c raw asked compared built in
              (
                subst (λ t. Requested p m c t.raw) same order_met,
                subst (λ t. Filled node req s c t.raw) same fields,
                (
                  g,
                  key,
                  ap (λ t. t.signatures) (sym same),
                  subst (λ o. SigningKey w strict (key_of o) key) asked keyed,
                  ap (λ t. w.sign_hash_with key t.raw.tx_id) (sym same) ∙ signed,
                ),
              )
          | inr (none_sent, _) ↦ absurd (nil_cons (sym none_sent ∙ h))
        ]
    where
      head_eq :
          {x y : SignedTransaction} {xs ys : List SignedTransaction}
          → ◌≡◌ {A = List SignedTransaction} (x ∷ xs) (y ∷ ys)
          → x ≡ y
      head_eq e = cc

      nil_cons : {x : SignedTransaction} → ◌≡◌ {A = List SignedTransaction} [] (x ∷ []) → ⊥
      nil_cons e = cc
