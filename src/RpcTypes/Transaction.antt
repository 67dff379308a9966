-- ===== src/RpcTypes/Transaction.antt =====
-- crates/rpc-types/src/types/transaction.rs: requests, transactions that a node built, and signed
-- transactions. The generated protobuf types, the codec of prost and SHA-256 are parameters: a
-- message type keeps what the code does not name in `rest`.
pub mod Applied
pub mod Ids
pub mod Signed
mod Tests
use tronz.Prelude.{
  ℕ, ◌+◌, ◌*◌, ◌≡◌, Bool, true, false, not, ◌&&◌, Option, none, some, List, [], ◌∷◌, ◌++◌, Bytes,
  length, map, Result, ok, err, ◌>>=◌, map_err, ok_or, bytes_eq, if◌then◌else◌,
}
use tronz.Prelude.Int.{ℤ}
use tronz.Primitives.Amount.{Trx}
use tronz.Primitives.Signature.{RecoverableSignature, SignatureError, from_bytes, to_bytes}
use tronz.RpcTypes.Contract.{ContractType, needs_fee_limit}
use tronz.RpcTypes.Block.{BlockInfo, ref_block_bytes, ref_block_hash, is_empty}
use tronz.RpcTypes.Wire.{
  ResponseError, decode_error, malformed, extract_raw_data, no_raw_data, bad_signature,
  carries_signatures, carries_results, no_contract, unpreserved_encoding, txid_mismatch,
  no_contract_for_permission, missing_raw_data,
}

pub record TransactionRequest : Type 0 where
  pub contract : Option ContractType
  pub fee_limit : Option Trx
  pub memo : Option Bytes
  pub permission_id : Option ℤ
  pub ref_block_bytes : Option Bytes
  pub ref_block_hash : Option Bytes
  pub expiration : Option ℤ
  pub timestamp : Option ℤ

abbrev pub needs_limit : Option ContractType → Bool
needs_limit none = false
needs_limit (some c) = needs_fee_limit c

abbrev pub contract_needs_fee_limit : TransactionRequest → Bool
contract_needs_fee_limit req = needs_limit req.contract

-- `proto::transaction::Contract`, `proto::transaction::Raw` and `proto::Transaction`.
pub record ProtoContract : Type 0 where
  pub kind : ℤ
  pub parameter : Option Bytes
  pub permission_id : ℤ
  pub rest : Bytes

pub record ProtoRaw : Type 0 where
  pub ref_block_bytes : Bytes
  pub ref_block_hash : Bytes
  pub expiration : ℤ
  pub memo : Bytes
  pub contract : List ProtoContract
  pub timestamp : ℤ
  pub fee_limit : ℤ
  pub rest : Bytes

pub record ProtoTransaction : Type 0 where
  pub raw_data : Option ProtoRaw
  pub signature : List Bytes
  pub ret : List Bytes

-- prost and sha2.
pub record Proto : Type 0 where
  pub decode : Bytes → Result Bytes ProtoTransaction
  pub encode : ProtoTransaction → Bytes
  pub encode_raw : ProtoRaw → Bytes
  pub sha256 : Bytes → Bytes

pub record RawTransaction : Type 0 where
  pub expiration : ℤ
  pub timestamp : ℤ
  pub tx_id : Bytes
  pub raw_proto : Bytes

pub record DecodedTransaction : Type 0 where
  pub raw : RawTransaction
  pub signatures : List RecoverableSignature
  pub has_results : Bool
  pub has_contract : Bool

pub record SignedTransaction : Type 0 where
  pub raw : RawTransaction
  pub signatures : List RecoverableSignature

abbrev pub nonempty {ℓ} : {A : Type ℓ} → List A → Bool
nonempty [] = false
nonempty (x ∷ xs) = true

abbrev pub given {ℓ} : {A : Type ℓ} → Option A → Bool
given none = false
given (some a) = true

abbrev pub or_keep {ℓ κ} : {A : Type ℓ} {B : Type κ} → Option A → (A → B) → B → B
or_keep none f b = b
or_keep (some a) f b = f a

-- `collect::<Result<Vec<_>, _>>` over the signatures.
unfoldable pub read_signatures : List Bytes → Result ResponseError (List RecoverableSignature)
read_signatures [] = ok []
read_signatures (b ∷ bs) = do
  g ← map_err (λ _. malformed bad_signature) (from_bytes b)
  gs ← read_signatures bs
  ok (g ∷ gs)

-- The outcome of `extract_raw_data`, which always has one.
abbrev pub found_raw : Option (Result ResponseError Bytes) → Result ResponseError Bytes
found_raw none = err (malformed no_raw_data)
found_raw (some r) = r

abbrev pub check : Bool → ResponseError → Result ResponseError (Unit {0})
check true e = ok tt
check false e = err e

module _ (p : Proto) where
  unfoldable pub from_encoded : Bytes → Bytes → Result ResponseError DecodedTransaction
  from_encoded raw_proto claimed_tx_id = do
    encoded_raw_data ← found_raw (extract_raw_data raw_proto)
    tx ← map_err decode_error (p.decode raw_proto)
    signatures ← read_signatures tx.signature
    raw_data ← ok_or tx.raw_data (malformed no_raw_data)
    _ ← check (bytes_eq (p.encode_raw raw_data) encoded_raw_data) (malformed unpreserved_encoding)
    _ ←
        check
          (if is_empty claimed_tx_id
            then true
            else bytes_eq claimed_tx_id (p.sha256 encoded_raw_data))
          (malformed txid_mismatch)
    ok (record {
      raw = record {
        expiration = raw_data.expiration;
        timestamp = raw_data.timestamp;
        tx_id = p.sha256 encoded_raw_data;
        raw_proto = p.encode (record tx { signature = [] });
      };
      signatures = signatures;
      has_results = nonempty tx.ret;
      has_contract = nonempty raw_data.contract;
    })

  unfoldable pub from_node_encoded : Bytes → Bytes → Result ResponseError RawTransaction
  from_node_encoded encoded claimed_tx_id = from_encoded encoded claimed_tx_id >>= λ d. ok d.raw

  pub decode_raw : Bytes → Result ResponseError RawTransaction
  decode_raw encoded = do
    d ← from_encoded encoded []
    _ ← check (not (nonempty d.signatures)) (malformed carries_signatures)
    _ ← check (not d.has_results) (malformed carries_results)
    _ ← check d.has_contract (malformed no_contract)
    ok d.raw

  pub decode_signed : Bytes → Result ResponseError SignedTransaction
  decode_signed encoded = do
    d ← from_encoded encoded []
    _ ← check d.has_contract (malformed no_contract)
    ok (record { raw = d.raw; signatures = d.signatures })

  pub to_proto : SignedTransaction → Result ResponseError ProtoTransaction
  to_proto t = do
    tx ← map_err decode_error (p.decode t.raw.raw_proto)
    ok (record tx { signature = tx.signature ++ map to_bytes t.signatures })

  pub encode_signed : SignedTransaction → Result ResponseError Bytes
  encode_signed t = to_proto t >>= λ tx. ok (p.encode tx)

pub encoded_len : SignedTransaction → ℕ
encoded_len t = length t.raw.raw_proto + length t.signatures * 67

-- The permission id goes to the first contract of the transaction.
pub set_permission : Option ℤ → List ProtoContract → Result ResponseError (List ProtoContract)
set_permission none cs = ok cs
set_permission (some id) [] = err (malformed no_contract_for_permission)
set_permission (some id) (c ∷ cs) = ok (record c { permission_id = id } ∷ cs)

abbrev pub nothing_to_apply : TransactionRequest → Bool
nothing_to_apply req =
    not (given req.fee_limit)
    && not (given req.memo)
    && not (given req.permission_id)
    && not (given req.ref_block_bytes)
    && not (given req.ref_block_hash)
    && not (given req.timestamp)
    && not (given req.expiration)

-- The raw data with the fields of the request in place of the node's.
pub overridden : TransactionRequest → ProtoRaw → Result ResponseError ProtoRaw
unfolding set_permission
overridden req d = do
  contract ← set_permission req.permission_id d.contract
  ok (record d {
    fee_limit = or_keep req.fee_limit (λ t. t.sun) d.fee_limit;
    memo = or_keep req.memo (λ m. m) d.memo;
    contract = contract;
    ref_block_bytes = or_keep req.ref_block_bytes (λ b. b) d.ref_block_bytes;
    ref_block_hash = or_keep req.ref_block_hash (λ b. b) d.ref_block_hash;
    timestamp = or_keep req.timestamp (λ v. v) d.timestamp;
    expiration = or_keep req.expiration (λ v. v) d.expiration;
  })

module _ (p : Proto) where
  unfoldable pub apply_request_fields :
      RawTransaction → TransactionRequest → Result ResponseError RawTransaction
  apply_request_fields raw req = if nothing_to_apply req then ok raw else (do
    tx ← map_err decode_error (p.decode raw.raw_proto)
    d ← ok_or tx.raw_data (malformed missing_raw_data)
    d' ← overridden req d
    ok (record {
      expiration = d'.expiration;
      timestamp = d'.timestamp;
      tx_id = p.sha256 (p.encode_raw d');
      raw_proto = p.encode (record tx { raw_data = some d' });
    }))
