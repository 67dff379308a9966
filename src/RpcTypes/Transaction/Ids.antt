-- ===== src/RpcTypes/Transaction/Ids.antt =====
-- The id of a transaction is the hash of what its bytes carry, whatever a node claimed.
use tronz.Prelude.{
  ◌≡◌, ◌⊎◌, inl, inr, refl, sym, ap, ◌∙◌, subst, Bool, true, false, some, [], ◌∷◌, Bytes, ok,
  map_err, ok_or, bytes_eq, bytes_eq_iff, bind_ok_then, some-injective, Bool-cases, ok-injective,
  ok_or-ok, map_err-ok, if◌then◌else◌,
}
use tronz.RpcTypes.Wire.{
  ResponseError, extract_raw_data, malformed, missing_raw_data, no_raw_data, unpreserved_encoding,
  txid_mismatch, decode_error,
}
use tronz.RpcTypes.Block.{is_empty}
use tronz.RpcTypes.Transaction.{
  Proto, ProtoTransaction, ProtoRaw, RawTransaction, DecodedTransaction, TransactionRequest,
  from_encoded, apply_request_fields, overridden, found_raw, check, read_signatures,
  nothing_to_apply,
}
use tronz.RpcTypes.Transaction.Applied.{Applied, nothing_to_apply-Applied, overridden-Applied}

-- The bytes of the transaction are the encoding of a message with no signature, its id is the hash
-- of that message's raw data, and its two times are those of the raw data.
pub record IsConsistent (p : Proto) (raw : RawTransaction) : Type 0 where
  pub tx : ProtoTransaction
  pub raw_data : ProtoRaw
  pub bytes : raw.raw_proto ≡ p.encode tx
  pub carries : tx.raw_data ≡ some raw_data
  pub unsigned : tx.signature ≡ []
  pub id : raw.tx_id ≡ p.sha256 (p.encode_raw raw_data)
  pub expires : raw.expiration ≡ raw_data.expiration
  pub created : raw.timestamp ≡ raw_data.timestamp

module _ (p : Proto) where
  pub record Reading (encoded claimed : Bytes) (d : DecodedTransaction) : Type 0 where
    pub raw : Bytes
    pub tx : ProtoTransaction
    pub raw_data : ProtoRaw
    pub found : found_raw (extract_raw_data encoded) ≡ ok raw
    pub decoded : p.decode encoded ≡ ok tx
    pub signed : read_signatures tx.signature ≡ ok d.signatures
    pub carries : tx.raw_data ≡ some raw_data
    pub preserved : p.encode_raw raw_data ≡ raw
    pub claim : (claimed ≡ []) ⊎ (claimed ≡ p.sha256 raw)
    pub result : d.raw ≡ record {
      expiration = raw_data.expiration;
      timestamp = raw_data.timestamp;
      tx_id = p.sha256 raw;
      raw_proto = p.encode (record tx { signature = [] });
    }

  check_ok : (b : Bool) (e : ResponseError) {u : Unit {0}} → check b e ≡ ok u → b ≡ true
  check_ok true e h = refl
  check_ok false e h = cc

  claim_ok :
      (claimed id : Bytes)
      → (if is_empty claimed then true else bytes_eq claimed id) ≡ true
      → (claimed ≡ []) ⊎ (claimed ≡ id)
  claim_ok [] id h = inl refl
  claim_ok (c ∷ cs) id h = inr ((bytes_eq_iff (c ∷ cs) id).0 h)

  pub from_encoded-Reading :
      (encoded claimed : Bytes) (d : DecodedTransaction)
      → from_encoded p encoded claimed ≡ ok d
      → Reading encoded claimed d
  unfolding from_encoded
  from_encoded-Reading encoded claimed d h =
      bind_ok_then (found_raw (extract_raw_data encoded)) _ h λ raw found h1.
        bind_ok_then (map_err decode_error (p.decode encoded)) _ h1 λ tx decoded h2.
          bind_ok_then (read_signatures tx.signature) _ h2 λ gs signed h3.
            bind_ok_then (ok_or tx.raw_data (malformed no_raw_data)) _ h3 λ raw_data carries h4.
              bind_ok_then
                (check (bytes_eq (p.encode_raw raw_data) raw) (malformed unpreserved_encoding)) _ h4
                λ _ preserved h5.
                  bind_ok_then
                    (check (if is_empty claimed then true else bytes_eq claimed (p.sha256 raw))
                      (malformed txid_mismatch))
                    _ h5
                    λ _ claim h6. record {
                      raw = raw;
                      tx = tx;
                      raw_data = raw_data;
                      found = found;
                      decoded = map_err-ok decode_error (p.decode encoded) decoded;
                      signed = signed ∙ cc;
                      carries = ok_or-ok tx.raw_data (malformed no_raw_data) carries;
                      preserved =
                          (bytes_eq_iff (p.encode_raw raw_data) raw).0 (check_ok _ _ preserved);
                      claim = claim_ok claimed (p.sha256 raw) (check_ok _ _ claim);
                      result = cc;
                    }

  -- A transaction that is read is consistent: its id is the hash of the raw data found in the
  -- input, and a claimed id is empty or this id.
  pub from_encoded-IsConsistent :
      (encoded claimed : Bytes) (d : DecodedTransaction)
      → from_encoded p encoded claimed ≡ ok d
      → (raw : Bytes) × IsConsistent p d.raw
        × (found_raw (extract_raw_data encoded) ≡ ok raw)
        × (d.raw.tx_id ≡ p.sha256 raw)
        × ((claimed ≡ []) ⊎ (claimed ≡ d.raw.tx_id))
  from_encoded-IsConsistent encoded claimed d h =
      let r = from_encoded-Reading encoded claimed d h in
      let id : d.raw.tx_id ≡ p.sha256 r.raw = ap (λ t. t.tx_id) r.result in
      (
        r.raw,
        record {
          tx = record r.tx { signature = [] };
          raw_data = r.raw_data;
          bytes = ap (λ t. t.raw_proto) r.result;
          carries = r.carries;
          unsigned = refl;
          id = id ∙ ap p.sha256 (sym r.preserved);
          expires = ap (λ t. t.expiration) r.result;
          created = ap (λ t. t.timestamp) r.result;
        },
        r.found,
        id,
        elim (r.claim) [ inl e ↦ inl e | inr e ↦ inr (e ∙ sym id) ],
      )

  -- Applying a request to a consistent transaction gives a consistent one, with the id of the new bytes. Each
  -- field that the request names is the request's, the permission that of the first contract, and
  -- everything else is as it was: the fields that it does not name, the contracts but for this
  -- permission, and the results. Prost never reads back the message that it wrote as another.
  pub apply_request_fields-IsConsistent :
      (raw raw' : RawTransaction) (req : TransactionRequest) (c : IsConsistent p raw)
      → ((t : ProtoTransaction) → p.decode (p.encode c.tx) ≡ ok t → t ≡ c.tx)
      → apply_request_fields p raw req ≡ ok raw'
      → (c' : IsConsistent p raw') × Applied req c.raw_data c'.raw_data × (c'.tx.ret ≡ c.tx.ret)
  unfolding apply_request_fields
  apply_request_fields-IsConsistent raw raw' req c reads h =
      elim (Bool-cases (nothing_to_apply req)) [
        | inl nothing ↦
            let same = rw nothing at h in
            (
              record {
                tx = c.tx;
                raw_data = c.raw_data;
                bytes = ap (λ t. t.raw_proto) (sym (ok-injective same)) ∙ c.bytes;
                carries = c.carries;
                unsigned = c.unsigned;
                id = ap (λ t. t.tx_id) (sym (ok-injective same)) ∙ c.id;
                expires = ap (λ t. t.expiration) (sym (ok-injective same)) ∙ c.expires;
                created = ap (λ t. t.timestamp) (sym (ok-injective same)) ∙ c.created;
              },
              nothing_to_apply-Applied req c.raw_data nothing,
              refl,
            )
        | inr something ↦
            let changed = rw something at h in
            bind_ok_then (map_err decode_error (p.decode raw.raw_proto)) _ changed λ tx decoded h1.
              bind_ok_then (ok_or tx.raw_data (malformed missing_raw_data)) _ h1 λ d carries h2.
                bind_ok_then (overridden req d) _ h2 λ d' over h3.
                  let tx-same : tx ≡ c.tx = reads tx (
                    ap p.decode (sym c.bytes)
                    ∙ map_err-ok decode_error (p.decode raw.raw_proto) decoded) in
                  let d-same : d ≡ c.raw_data = some-injective (
                    sym (ok_or-ok tx.raw_data (malformed missing_raw_data) carries)
                    ∙ ap (λ t. t.raw_data) tx-same
                    ∙ c.carries) in
                  (
                    record {
                      tx = record tx { raw_data = some d' };
                      raw_data = d';
                      bytes = ap (λ t. t.raw_proto) (sym (ok-injective h3));
                      carries = refl;
                      unsigned = ap (λ t. t.signature) tx-same ∙ c.unsigned;
                      id = ap (λ t. t.tx_id) (sym (ok-injective h3));
                      expires = ap (λ t. t.expiration) (sym (ok-injective h3));
                      created = ap (λ t. t.timestamp) (sym (ok-injective h3));
                    },
                    subst (λ r. Applied req r d') d-same (overridden-Applied req d d' over),
                    ap (λ t. t.ret) tx-same,
                  )
      ]
