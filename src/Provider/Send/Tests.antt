-- ===== src/Provider/Send/Tests.antt =====
-- Runs of a send at concrete inputs.
use tronz.Prelude.{
  ◌≡◌, ◌⊎◌, refl, sym, ap, ◌∙◌, Bool, true, false, Option, none, some, List, [], ◌∷◌, Bytes,
  replicate, Result, ok, err, ◌&&◌, if◌then◌else◌, bytes_eq, bytes_eq_iff, ok-injective, Bool-cases,
  inl, inr, arith,
}
use tronz.Prelude.Int.{ℤ, pos, eqb_ℤ}
use tronz.Primitives.Address.{Address}
use tronz.Primitives.Signature.{RecoverableSignature}
use tronz.RpcTypes.Kind.{id}
use tronz.RpcTypes.Contract.{ContractType, transfer, owner_address}
use tronz.RpcTypes.Wire.{
  extract_raw_data, scan_loop, scan_field, keep, read_varint, varint_loop, skip,
}
use tronz.RpcTypes.Messages.Accounts.{TransferContractMessage}
use tronz.RpcTypes.Transaction.{
  TransactionRequest, RawTransaction, SignedTransaction, Proto, ProtoTransaction, ProtoRaw,
  ProtoContract, apply_request_fields, from_node_encoded, from_encoded, read_signatures,
}
use tronz.Provider.Fillers.{State, Node, identity}
use tronz.Provider.Error.{connect, node_failed}
use tronz.Provider.Fillers.Keeps.{Keeps-identity}
use tronz.Provider.Transport.{
  Message, TransactionExtention, check_return, raw_from_extention, raw_from_extention_with,
}
use tronz.Provider.Transport.Built.{RoundTrips}
use tronz.Provider.Transport.Service.{Messages, WalletService}
use tronz.Provider.Transport.FullNode.{transfer_trx}
use tronz.Provider.Transport.Dispatch.{build_contract}
use tronz.Provider.Transport.Requested.{Requested, build_contract-Requested}
use tronz.Provider.Send.Fields.{grpc_transport}
use tronz.Provider.Send.Asked.{Filled, send_transaction-Requested}
use tronz.Provider.Send.{
  Transport, TronNetworkWallet, wallet_sign_with, build_transaction, build_via_transport, broadcast,
  send_transaction,
}
use tronz.Provider.Send.Sent.{send_transaction-sent, Delivered, NothingSent, SignsBy, SigningKey}

abbrev owner : Address
owner = record { bytes = 0x41 ∷ replicate 20 7 }

abbrev request : TransactionRequest
request = record {
  contract = some (
      transfer
        (record { owner_address = owner; to_address = owner; amount = record { sun = pos 1 } }));
  fee_limit = none;
  memo = none;
  permission_id = none;
  ref_block_bytes = none;
  ref_block_hash = none;
  expiration = none;
  timestamp = none;
}

abbrev built : RawTransaction
built = record { expiration = pos 9; timestamp = pos 8; tx_id = 5 ∷ []; raw_proto = 7 ∷ [] }

abbrev network : Transport
network = record { build = λ c. ok built; broadcast_transaction = λ t. ok tt }

abbrev signature : RecoverableSignature
signature = record { r = replicate 32 1; s = replicate 32 2; v = 1 }

abbrev wallet : TronNetworkWallet
wallet = record {
  default_signer_address = owner;
  has_signer_for = λ a. true;
  sign_hash_with = λ a h. ok signature;
}

abbrev toy : Proto
toy = record { decode = λ b. err []; encode = λ t. []; encode_raw = λ d. []; sha256 = λ b. b }

abbrev node : Node
node = record {
  now = 100;
  later = 101;
  get_now_block = err (node_failed []);
  get_energy_price = ok (pos 420);
  estimate_energy = λ c. ok (pos 1);
  call_contract = λ c. err (node_failed []);
}

abbrev start : State
start = record { cached = none; price = none; node_will_not_estimate = false; log = [] }

wallet_signs : SignsBy wallet true (wallet_sign_with wallet true)
wallet_signs key hash = refl

send_transaction-sent_example :
    Delivered toy network identity
      (wallet_sign_with wallet true)
      wallet
      true
      node
      request
      start
      wallet_signs
      (send_transaction toy network identity (wallet_sign_with wallet true) node request start)
    ⊎ NothingSent toy network identity
        (wallet_sign_with wallet true)
        wallet
        true
        node
        request
        start
        wallet_signs
        (send_transaction toy network identity (wallet_sign_with wallet true) node request start)
send_transaction-sent_example =
    send_transaction-sent toy network identity (wallet_sign_with wallet true) wallet true node
      request start wallet_signs

abbrev asked : ContractType
asked =
    transfer (record { owner_address = owner; to_address = owner; amount = record { sun = pos 1 } })

abbrev asked_message : TransferContractMessage
asked_message = record { owner_address = owner.bytes; to_address = owner.bytes; amount = pos 1 }

abbrev carried : ProtoContract
carried = record { kind = pos 1; parameter = some (6 ∷ []); permission_id = pos 0; rest = [] }

abbrev carried_raw : ProtoRaw
carried_raw = record {
  ref_block_bytes = [];
  ref_block_hash = [];
  expiration = pos 9;
  memo = [];
  contract = carried ∷ [];
  timestamp = pos 8;
  fee_limit = pos 0;
  rest = [];
}

abbrev carried_tx : ProtoTransaction
carried_tx = record { raw_data = some carried_raw; signature = []; ret = [] }

abbrev is_six : Option Bytes → Bool
is_six none = false
is_six (some b) = bytes_eq b (6 ∷ [])

abbrev is_carried : List ProtoContract → Bool
is_carried (c ∷ []) =
    eqb_ℤ c.kind (pos 1)
    && (is_six c.parameter && (eqb_ℤ c.permission_id (pos 0) && bytes_eq c.rest []))
is_carried cs = false

abbrev is_carried_raw : Option ProtoRaw → Bool
is_carried_raw none = false
is_carried_raw (some d) =
    bytes_eq d.ref_block_bytes []
    && (bytes_eq d.ref_block_hash []
        && (eqb_ℤ d.expiration (pos 9)
            && (bytes_eq d.memo []
                && (is_carried d.contract
                    && (eqb_ℤ d.timestamp (pos 8)
                        && (eqb_ℤ d.fee_limit (pos 0) && bytes_eq d.rest []))))))

abbrev is_none : List Bytes → Bool
is_none [] = true
is_none (b ∷ bs) = false

abbrev is_carried_tx : ProtoTransaction → Bool
is_carried_tx tx = is_carried_raw tx.raw_data && (is_none tx.signature && is_none tx.ret)

both : {b c : Bool} → (b && c) ≡ true → (b ≡ true) × (c ≡ true)
both {b = true} {c = c} h = (refl, h)
both {b = false} {c = c} h = cc

same_int : (i j : ℤ) → eqb_ℤ i j ≡ true → i ≡ j
same_int i j h = ground arith

six_same : (o : Option Bytes) → is_six o ≡ true → o ≡ some (6 ∷ [])
six_same none h = cc
six_same (some b) h = ap some ((bytes_eq_iff b (6 ∷ [])).0 h)

none_same : (bs : List Bytes) → is_none bs ≡ true → bs ≡ []
none_same [] h = refl
none_same (b ∷ bs) h = cc

carried_same : (cs : List ProtoContract) → is_carried cs ≡ true → cs ≡ carried ∷ []
carried_same [] h = cc
carried_same (c ∷ d ∷ cs) h = cc
carried_same (c ∷ []) h =
    let (k, h1) = both h in
    let (o, h2) = both h1 in
    let (i, r) = both h2 in
    let of_kind = same_int c.kind (pos 1) k in
    let given = six_same c.parameter o in
    let id = same_int c.permission_id (pos 0) i in
    let others = (bytes_eq_iff c.rest []).0 r in
    λ t.
      record { kind = of_kind t; parameter = given t; permission_id = id t; rest = others t } ∷ []

raw_same : (o : Option ProtoRaw) → is_carried_raw o ≡ true → o ≡ some carried_raw
raw_same none h = cc
raw_same (some d) h =
    let (a, h1) = both h in
    let (b, h2) = both h1 in
    let (c, h3) = both h2 in
    let (e, h4) = both h3 in
    let (f, h5) = both h4 in
    let (g, h6) = both h5 in
    let (k, l) = both h6 in
    let block = (bytes_eq_iff d.ref_block_bytes []).0 a in
    let hash = (bytes_eq_iff d.ref_block_hash []).0 b in
    let expires = same_int d.expiration (pos 9) c in
    let memo = (bytes_eq_iff d.memo []).0 e in
    let contract = carried_same d.contract f in
    let created = same_int d.timestamp (pos 8) g in
    let fee = same_int d.fee_limit (pos 0) k in
    let others = (bytes_eq_iff d.rest []).0 l in
    λ t. some (record {
      ref_block_bytes = block t;
      ref_block_hash = hash t;
      expiration = expires t;
      memo = memo t;
      contract = contract t;
      timestamp = created t;
      fee_limit = fee t;
      rest = others t;
    })

tx_same : (tx : ProtoTransaction) → is_carried_tx tx ≡ true → tx ≡ carried_tx
tx_same tx h =
    let (a, h1) = both h in
    let (b, c) = both h1 in
    let raw = raw_same tx.raw_data a in
    let gs = none_same tx.signature b in
    let rs = none_same tx.ret c in λ t. record { raw_data = raw t; signature = gs t; ret = rs t }

-- A codec that knows one transaction.
abbrev read_it : Bytes → Result Bytes ProtoTransaction
read_it [] = err []
read_it (b ∷ bs) = ok carried_tx

abbrev codec : Proto
codec = record {
  decode = read_it;
  encode = λ tx. if is_carried_tx tx then 10 ∷ 1 ∷ 7 ∷ [] else [];
  encode_raw = λ d. 7 ∷ [];
  sha256 = λ b. 5 ∷ b;
}

codec_reads : RoundTrips codec
codec_reads tx t h = elim (Bool-cases (is_carried_tx tx)) [
  | inl it ↦ sym (ok-injective (rw it at h)) ∙ sym (tx_same tx it)
  | inr other ↦ cc (rw other at h)
]

never : {M : Type 0} (a b : M) → ◌≡◌ {A = Bool} false true → a ≡ b
never a b h = cc

abbrev unread : {M : Type 0} → Message M
unread = record { decode_message = λ b. err []; same = λ a b. false; same→≡ = never }

abbrev same_transfer : TransferContractMessage → TransferContractMessage → Bool
same_transfer a b =
    bytes_eq a.owner_address b.owner_address
    && (bytes_eq a.to_address b.to_address && eqb_ℤ a.amount b.amount)

same_transfer_iff : (a b : TransferContractMessage) → same_transfer a b ≡ true → a ≡ b
same_transfer_iff a b h =
    let (x, h1) = both h in
    let (y, z) = both h1 in
    let from = (bytes_eq_iff a.owner_address b.owner_address).0 x in
    let into = (bytes_eq_iff a.to_address b.to_address).0 y in
    let sum = same_int a.amount b.amount z in
    λ t. record { owner_address = from t; to_address = into t; amount = sum t }

abbrev messages : Messages
messages = record {
  freeze_balance_v1 = unread;
  unfreeze_balance_v1 = unread;
  freeze_balance_v2 = unread;
  unfreeze_balance_v2 = unread;
  delegate_resource = unread;
  un_delegate_resource = unread;
  withdraw_expire_unfreeze = unread;
  cancel_all_unfreeze_v2 = unread;
  withdraw_balance = unread;
  transfer = record {
    decode_message = λ b. ok asked_message;
    same = same_transfer;
    same→≡ = same_transfer_iff;
  };
  create_account = unread;
  update_account = unread;
  account_permission_update = unread;
  vote_witness = unread;
  create_witness = unread;
  update_witness = unread;
  update_brokerage = unread;
  proposal_create = unread;
  proposal_approve = unread;
  proposal_delete = unread;
  asset_issue = unread;
  transfer_asset = unread;
  participate_asset_issue = unread;
  unfreeze_asset = unread;
  update_asset = unread;
  exchange_create = unread;
  exchange_inject = unread;
  exchange_withdraw = unread;
  exchange_transaction = unread;
  market_sell_asset = unread;
  market_cancel_order = unread;
  trigger_smart_contract = unread;
  create_smart_contract = unread;
  clear_contract_abi = unread;
  update_setting = unread;
  update_energy_limit = unread;
}

abbrev answer : TransactionExtention
answer = record { transaction = some carried_tx; txid = []; returned = none }

abbrev service : WalletService
service = record {
  freeze_balance2 = λ c. err (connect []);
  unfreeze_balance2 = λ c. err (connect []);
  freeze_balance_v2 = λ c. err (connect []);
  unfreeze_balance_v2 = λ c. err (connect []);
  delegate_resource = λ c. err (connect []);
  un_delegate_resource = λ c. err (connect []);
  withdraw_expire_unfreeze = λ c. err (connect []);
  cancel_all_unfreeze_v2 = λ c. err (connect []);
  withdraw_balance2 = λ c. err (connect []);
  create_transaction2 = λ c. ok answer;
  create_account2 = λ c. err (connect []);
  update_account2 = λ c. err (connect []);
  set_account_id = λ c. err (connect []);
  account_permission_update = λ c. err (connect []);
  vote_witness_account2 = λ c. err (connect []);
  create_witness2 = λ c. err (connect []);
  update_witness2 = λ c. err (connect []);
  update_brokerage = λ c. err (connect []);
  proposal_create = λ c. err (connect []);
  proposal_approve = λ c. err (connect []);
  proposal_delete = λ c. err (connect []);
  create_asset_issue2 = λ c. err (connect []);
  transfer_asset2 = λ c. err (connect []);
  participate_asset_issue2 = λ c. err (connect []);
  unfreeze_asset2 = λ c. err (connect []);
  update_asset2 = λ c. err (connect []);
  exchange_create = λ c. err (connect []);
  exchange_inject = λ c. err (connect []);
  exchange_withdraw = λ c. err (connect []);
  exchange_transaction = λ c. err (connect []);
  market_sell_asset = λ c. err (connect []);
  market_cancel_order = λ c. err (connect []);
  trigger_contract = λ c. err (connect []);
  deploy_contract = λ c. err (connect []);
  clear_contract_abi = λ c. err (connect []);
  update_setting = λ c. err (connect []);
  update_energy_limit = λ c. err (connect []);
}

abbrev kept : RawTransaction
kept = record {
  expiration = pos 9;
  timestamp = pos 8;
  tx_id = 5 ∷ 7 ∷ [];
  raw_proto = 10 ∷ 1 ∷ 7 ∷ [];
}

kept_found : extract_raw_data (10 ∷ 1 ∷ 7 ∷ []) ≡ some (ok (7 ∷ []))
unfolding extract_raw_data scan_loop scan_field keep read_varint varint_loop skip
kept_found = refl

kept_read : from_node_encoded codec (10 ∷ 1 ∷ 7 ∷ []) [] ≡ ok kept
unfolding from_node_encoded from_encoded read_signatures
kept_read = rw kept_found refl

kept_built : build_contract codec messages service asked ≡ ok kept
unfolding build_contract transfer_trx raw_from_extention raw_from_extention_with check_return id
kept_built = rw kept_read refl

build_contract-Requested_example : Requested codec messages asked kept
build_contract-Requested_example =
    build_contract-Requested codec messages service codec_reads asked kept refl kept_built

abbrev delivered : SignedTransaction
delivered = record { raw = kept; signatures = signature ∷ [] }

kept_sent :
    (send_transaction codec
      (grpc_transport codec messages service (λ t. ok tt))
      identity
      (wallet_sign_with wallet true)
      node
      request
      start).sent
    ≡ delivered ∷ []
unfolding send_transaction build_transaction build_via_transport apply_request_fields
    wallet_sign_with broadcast
kept_sent = rw kept_built refl

send_transaction-Requested_example :
    Requested codec messages asked kept
    × Filled codec codec_reads messages service
        (λ t. ok tt)
        identity
        Keeps-identity
        (wallet_sign_with wallet true)
        node
        request
        start
        asked
        kept
    × ((g : RecoverableSignature) × (key : Address) × (signature ∷ [] ≡ g ∷ [])
        × SigningKey wallet true (some (owner_address asked)) key
        × (wallet.sign_hash_with key (5 ∷ 7 ∷ []) ≡ ok g))
send_transaction-Requested_example =
    send_transaction-Requested codec codec_reads messages service (λ t. ok tt) identity
      Keeps-identity (wallet_sign_with wallet true) wallet true node request start asked delivered
      wallet_signs refl refl kept_sent
