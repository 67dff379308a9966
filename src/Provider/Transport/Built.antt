-- ===== src/Provider/Transport/Built.antt =====
-- The transaction that the transport keeps of a node's answer.
use tronz.Prelude.{
  ◌≡◌, refl, sym, ap, ◌∙◌, Bool, true, false, some, List, [], ◌∷◌, Bytes, ok, map_err, ok_or,
  bind_ok_then, ok-injective, map_err-ok, ok_or-ok, some-injective, arith,
}
use tronz.Prelude.Int.{ℤ, eqb_ℤ}
use tronz.RpcTypes.Kind.{ContractKind, id}
use tronz.RpcTypes.Wire.{
  missing_transaction, missing_parameter, no_raw_data, different_contract, different_kind,
}
use tronz.RpcTypes.Transaction.{
  Proto, ProtoTransaction, ProtoRaw, ProtoContract, RawTransaction, from_node_encoded, from_encoded,
}
use tronz.RpcTypes.Transaction.Ids.{IsConsistent, from_encoded-Reading}
use tronz.Provider.Error.{TransportErrorKind, proto, malformed_response, of_response}
use tronz.Provider.Transport.{
  Message, TransactionExtention, check_return, exactly_one, agree, raw_from_extention_with,
}

-- What prost wrote is never read back as another transaction.
abbrev pub RoundTrips : Proto → Type 0
RoundTrips p = (tx t : ProtoTransaction) → p.decode (p.encode tx) ≡ ok t → t ≡ tx

-- The transaction has one contract, of this kind, whose parameter is what was sent, but for what the node
-- derives.
pub record Carries (p : Proto) {M : Type 0} (m : Message M) (sent : M) (kind : ContractKind)
    (allow_derived : M → M) (raw : RawTransaction) : Type 0 where
  pub consistent : IsConsistent p raw
  pub contract : ProtoContract
  pub alone : consistent.raw_data.contract ≡ contract ∷ []
  pub of_kind : contract.kind ≡ id kind
  pub parameter : Bytes
  pub given : contract.parameter ≡ some parameter
  pub built : M
  pub decoded : m.decode_message parameter ≡ ok built
  pub requested : allow_derived built ≡ sent

agree_ok : (b : Bool) (e : TransportErrorKind) {u : Unit {0}} → agree b e ≡ ok u → b ≡ true
agree_ok true e h = refl
agree_ok false e h = cc

exactly_one_ok : (cs : List ProtoContract) (c : ProtoContract) → exactly_one cs ≡ ok c → cs ≡ c ∷ []
exactly_one_ok [] c h = cc
exactly_one_ok (d ∷ []) c h = ap (λ t. t ∷ []) (ok-injective h)
exactly_one_ok (d ∷ e ∷ cs) c h = cc

eqb_same : (i j : ℤ) → eqb_ℤ i j ≡ true → i ≡ j
eqb_same i j h = ground arith

module _ (p : Proto) (law : RoundTrips p) where
  -- The transaction that is kept of a message is its encoding, without signatures.
  kept :
      (tx : ProtoTransaction) (txid : Bytes) (raw_data : ProtoRaw) (raw : RawTransaction)
      → tx.raw_data ≡ some raw_data
      → from_node_encoded p (p.encode tx) txid ≡ ok raw
      → (c : IsConsistent p raw) × (c.raw_data ≡ raw_data)
  unfolding from_node_encoded
  kept tx txid raw_data raw carried h =
      bind_ok_then (from_encoded p (p.encode tx) txid) _ h λ d read made.
        let r = from_encoded-Reading p (p.encode tx) txid d read in
        let same_tx : r.tx ≡ tx = law tx r.tx r.decoded in
        let result = sym (ok-injective made) ∙ r.result in
        (
          record {
            tx = record r.tx { signature = [] };
            raw_data = r.raw_data;
            bytes = ap (λ t. t.raw_proto) result;
            carries = r.carries;
            unsigned = refl;
            id = ap (λ t. t.tx_id) result ∙ ap p.sha256 (sym r.preserved);
            expires = ap (λ t. t.expiration) result;
            created = ap (λ t. t.timestamp) result;
          },
          some-injective (sym r.carries ∙ ap (λ t. t.raw_data) same_tx ∙ carried),
        )

  module _ {M : Type 0} (m : Message M) where
    pub raw_from_extention_with-Carries :
        (ext : TransactionExtention) (sent : M) (kind : ContractKind) (allow_derived : M → M)
        (raw : RawTransaction)
        → raw_from_extention_with p m ext sent kind allow_derived ≡ ok raw
        → Carries p m sent kind allow_derived raw
    unfolding raw_from_extention_with
    raw_from_extention_with-Carries ext sent kind allow_derived raw h =
        bind_ok_then (map_err of_response (check_return ext.returned)) _ h λ _ returned h1.
          bind_ok_then (ok_or ext.transaction (malformed_response missing_transaction)) _ h1
            λ tx found h2.
              bind_ok_then (ok_or tx.raw_data (malformed_response no_raw_data)) _ h2
                λ raw_data carried h3.
                  bind_ok_then (exactly_one raw_data.contract) _ h3 λ contract alone h4.
                    bind_ok_then
                      (agree (eqb_ℤ contract.kind (id kind))
                        (malformed_response (different_kind contract.kind (id kind))))
                      _ h4
                      λ _ of_kind h5.
                        bind_ok_then
                          (ok_or contract.parameter (malformed_response missing_parameter)) _ h5
                          λ parameter given h6.
                            bind_ok_then (map_err proto (m.decode_message parameter)) _ h6
                              λ built decoded h7.
                                bind_ok_then
                                  (agree (m.same (allow_derived built) sent)
                                    (malformed_response different_contract))
                                  _ h7
                                  λ _ same h8.
                                    let (consistent, those) =
                                      kept tx ext.txid raw_data raw (ok_or-ok tx.raw_data _ carried)
                                        (map_err-ok of_response _ h8) in
                                    record {
                                      consistent = consistent;
                                      contract = contract;
                                      alone =
                                          ap (λ d. d.contract) those
                                          ∙ exactly_one_ok raw_data.contract contract alone;
                                      of_kind =
                                          eqb_same contract.kind (id kind) (agree_ok _ _ of_kind);
                                      parameter = parameter;
                                      given = ok_or-ok contract.parameter _ given;
                                      built = built;
                                      decoded =
                                          map_err-ok proto (m.decode_message parameter) decoded;
                                      requested =
                                          m.same→≡ (allow_derived built) sent (agree_ok _ _ same);
                                    }
