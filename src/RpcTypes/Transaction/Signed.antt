-- ===== src/RpcTypes/Transaction/Signed.antt =====
-- Signed transactions survive their wire format: crates/rpc-types/src/types/transaction.rs, `encode`
-- and `decode` of `SignedTransaction`.
use tronz.Prelude.{
  ◌+◌, ◌*◌, ◌≡◌, refl, sym, ap, ◌∙◌, true, some, List, [], ◌∷◌, Bytes, length, map, All, ok,
  ok-injective, bytes_eq_iff, arith,
}
use tronz.Primitives.Signature.{RecoverableSignature, IsSignature, to_bytes}
use tronz.Primitives.Signature.Wire.{from_bytes-to_bytes, length-to_bytes}
use tronz.RpcTypes.Wire.{extract_raw_data}
use tronz.RpcTypes.Transaction.{
  Proto, ProtoTransaction, RawTransaction, SignedTransaction, from_encoded, found_raw,
  read_signatures, decode_signed, encode_signed, to_proto, encoded_len, nonempty,
}
use tronz.RpcTypes.Transaction.Ids.{IsConsistent}

read_signatures-to_bytes :
    (gs : List RecoverableSignature)
    → All IsSignature gs
    → read_signatures (map to_bytes gs) ≡ ok gs
unfolding read_signatures
read_signatures-to_bytes [] h = refl
read_signatures-to_bytes (g ∷ gs) (h, hs) =
    rw ((from_bytes-to_bytes g h).0, read_signatures-to_bytes gs hs)

raw_form :
    {p : Proto} (raw : RawTransaction) (c : IsConsistent p raw)
    → raw ≡ record {
      expiration = c.raw_data.expiration;
      timestamp = c.raw_data.timestamp;
      tx_id = p.sha256 (p.encode_raw c.raw_data);
      raw_proto = p.encode (record { raw_data = some c.raw_data; signature = []; ret = c.tx.ret });
    }
raw_form {p} raw c =
    let bytes : raw.raw_proto
        ≡ p.encode (record { raw_data = some c.raw_data; signature = []; ret = c.tx.ret }) =
      c.bytes ∙ (λ i.
        p.encode (record { raw_data = c.carries i; signature = c.unsigned i; ret = c.tx.ret })) in
    λ i. record {
      expiration = c.expires i;
      timestamp = c.created i;
      tx_id = c.id i;
      raw_proto = bytes i;
    }

abbrev pub signed_form : ProtoTransaction → List RecoverableSignature → ProtoTransaction
signed_form tx gs = record tx { signature = map to_bytes gs }

module _ (p : Proto) where
  encode_signed-form :
      (t : SignedTransaction) (c : IsConsistent p t.raw)
      → p.decode (p.encode c.tx) ≡ ok c.tx
      → encode_signed p t ≡ ok (p.encode (signed_form c.tx t.signatures))
  unfolding encode_signed to_proto
  encode_signed-form t c reads = rw (c.bytes, reads, c.unsigned)

module _ (p : Proto) where
  decode_signed-form :
      (t : SignedTransaction) (c : IsConsistent p t.raw)
      → All IsSignature t.signatures
      → nonempty c.raw_data.contract ≡ true
      → p.decode (p.encode (signed_form c.tx t.signatures)) ≡ ok (signed_form c.tx t.signatures)
      → found_raw (extract_raw_data (p.encode (signed_form c.tx t.signatures)))
        ≡ ok (p.encode_raw c.raw_data)
      → decode_signed p (p.encode (signed_form c.tx t.signatures)) ≡ ok t
  unfolding decode_signed from_encoded
  decode_signed-form t c gs has reads extracts =
      rw
        (
          extracts,
          reads,
          read_signatures-to_bytes t.signatures gs,
          c.carries,
          (bytes_eq_iff (p.encode_raw c.raw_data) (p.encode_raw c.raw_data)).1 refl,
          has,
        )
        (ap (λ raw. ok (record { raw = raw; signatures = t.signatures })) (sym (raw_form t.raw c)))

  -- A signed transaction is encoded, and reads back as itself, if it is consistent, its signatures are
  -- well formed and it carries a contract, and if prost reads back the two messages that it wrote and
  -- the raw data is found where prost wrote it.
  pub decode_signed-encode_signed :
      (t : SignedTransaction) (c : IsConsistent p t.raw)
      → All IsSignature t.signatures
      → nonempty c.raw_data.contract ≡ true
      → p.decode (p.encode c.tx) ≡ ok c.tx
      → p.decode (p.encode (signed_form c.tx t.signatures)) ≡ ok (signed_form c.tx t.signatures)
      → found_raw (extract_raw_data (p.encode (signed_form c.tx t.signatures)))
        ≡ ok (p.encode_raw c.raw_data)
      → (encoded : Bytes) × (encode_signed p t ≡ ok encoded) × (decode_signed p encoded ≡ ok t)
  decode_signed-encode_signed t c gs has reads reads_signed extracts = (
    p.encode (signed_form c.tx t.signatures),
    encode_signed-form p t c reads,
    decode_signed-form t c gs has reads_signed extracts,
  )

module _ (p : Proto)
    (sizes : (t : ProtoTransaction) (g : Bytes) (gs : List Bytes)
      → length g ≡ 65
      → length (p.encode (record t { signature = g ∷ gs }))
        ≡ length (p.encode (record t { signature = gs })) + 67) where
  signatures-length :
      (t : ProtoTransaction) (gs : List RecoverableSignature)
      → All IsSignature gs
      → length (p.encode (record t { signature = map to_bytes gs }))
        ≡ length (p.encode (record t { signature = [] })) + length gs * 67
  signatures-length t [] h = omega arith
  signatures-length t (g ∷ gs) (h, hs) = omega (
    arith,
    sizes t (to_bytes g) (map to_bytes gs) (length-to_bytes g h),
    signatures-length t gs hs,
  )

  -- The size that is announced for a signed transaction is the size of its encoding, if prost reads back
  -- the message that it wrote and spends 67 bytes on a field of 65.
  pub encoded_len-encode_signed :
      (t : SignedTransaction) (c : IsConsistent p t.raw) (encoded : Bytes)
      → p.decode (p.encode c.tx) ≡ ok c.tx
      → All IsSignature t.signatures
      → encode_signed p t ≡ ok encoded
      → length encoded ≡ encoded_len t
  unfolding encode_signed to_proto encoded_len
  encoded_len-encode_signed t c encoded reads gs h =
      let bytes = ok-injective (sym (encode_signed-form p t c reads) ∙ h) in
      let announced =
        ap (λ s. length (p.encode (record c.tx { signature = s }))) (sym c.unsigned) in
      omega (
        arith,
        ap length bytes,
        ap length c.bytes,
        announced,
        signatures-length c.tx t.signatures gs,
      )
