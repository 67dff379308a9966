-- ===== src/Provider/Send/Fields.antt =====
-- What a transaction that is built for a request carries: its contract, and its fields.
use tronz.Prelude.{
  ◌≡◌, refl, sym, ap, ◌∙◌, true, Option, none, some, List, [], ◌∷◌, Result, ok, map, map_err, ok_or,
  bind_ok_then, map_err-ok, ok_or-ok, some-injective,
}
use tronz.RpcTypes.Kind.{ContractKind}
use tronz.RpcTypes.Contract.{ContractType}
use tronz.RpcTypes.Transaction.{
  TransactionRequest, RawTransaction, SignedTransaction, Proto, ProtoRaw, ProtoContract,
  apply_request_fields,
}
use tronz.RpcTypes.Transaction.Applied.{content, Applied, Applied-content}
use tronz.RpcTypes.Transaction.Ids.{IsConsistent, apply_request_fields-IsConsistent}
use tronz.Provider.Error.{
  TransportErrorKind, transport, promote, of_response, local_usage, missing_contract,
}
use tronz.Provider.Transport.{Message}
use tronz.Provider.Transport.Built.{Carries, RoundTrips}
use tronz.Provider.Transport.Service.{Messages, WalletService}
use tronz.Provider.Transport.Dispatch.{build_contract}
use tronz.Provider.Transport.Requested.{
  Order, order, Fulfils, Requested, is_compared, build_contract-Requested,
}
use tronz.Provider.Send.{Transport, build_via_transport}

-- The transport of a node.
abbrev pub grpc_transport :
    Proto
    → Messages
    → WalletService
    → (SignedTransaction → Result TransportErrorKind (Unit {0}))
    → Transport
grpc_transport p m service submit = record {
  build = build_contract p m service;
  broadcast_transaction = submit;
}

content_alone :
    (cs : List ProtoContract) (k : ProtoContract)
    → map content cs ≡ content k ∷ []
    → (k' : ProtoContract) × (cs ≡ k' ∷ []) × (k'.kind ≡ k.kind) × (k'.parameter ≡ k.parameter)
content_alone [] k h = cc
content_alone (c ∷ []) k h =
    let same : content c ≡ content k = cc in
    (c, refl, ap (λ t. t.kind) same, ap (λ t. t.parameter) same)
content_alone (c ∷ d ∷ cs) k h = cc

-- The raw data of a transaction is that of what the node built for the contract, but for the fields that the
-- request names, which are the request's.
abbrev pub HasFields :
    Proto → Messages → WalletService → ContractType → TransactionRequest → RawTransaction → Type 0
HasFields p m service c req raw =
    (answered : RawTransaction) × (build_contract p m service c ≡ ok answered)
    × ((before : IsConsistent p answered) × (q : IsConsistent p raw) × Applied req before.raw_data
          q.raw_data)

-- The contract of a request is not one of its fields.
but_contract :
    (req : TransactionRequest) (old new : ProtoRaw)
    → Applied (record req { contract = none }) old new
    → Applied req old new
but_contract req old new a = record {
  fee_limit = a.fee_limit;
  memo = a.memo;
  permission = a.permission;
  ref_block_bytes = a.ref_block_bytes;
  ref_block_hash = a.ref_block_hash;
  timestamp = a.timestamp;
  expiration = a.expiration;
  rest = a.rest;
}

module _ (p : Proto) (law : RoundTrips p) where
  -- The fields of a request leave the contract as it was built.
  apply_request_fields-Carries :
      {M : Type 0} (m : Message M) (sent : M) (kind : ContractKind) (allow : M → M)
      (raw raw' : RawTransaction) (req : TransactionRequest)
      → Carries p m sent kind allow raw
      → apply_request_fields p raw req ≡ ok raw'
      → Carries p m sent kind allow raw'
  apply_request_fields-Carries m sent kind allow raw raw' req c h =
      let (again, applied, _) =
        apply_request_fields-IsConsistent p raw raw' req c.consistent (law c.consistent.tx) h in
      let same = Applied-content req c.consistent.raw_data again.raw_data applied in
      let (k, alone, of_kind, given) =
        content_alone again.raw_data.contract c.contract (same ∙ ap (map content) c.alone) in
      record {
        consistent = again;
        contract = k;
        alone = alone;
        of_kind = of_kind ∙ c.of_kind;
        parameter = c.parameter;
        given = given ∙ c.given;
        built = c.built;
        decoded = c.decoded;
        requested = c.requested;
      }

  apply_request_fields-Fulfils :
      (o : Option Order) (raw raw' : RawTransaction) (req : TransactionRequest)
      → Fulfils p o raw
      → apply_request_fields p raw req ≡ ok raw'
      → Fulfils p o raw'
  apply_request_fields-Fulfils none raw raw' req c h = elim c [ ]
  apply_request_fields-Fulfils (some o) raw raw' req c h =
      apply_request_fields-Carries o.message o.sent o.kind o.derived raw raw' req c h

  apply_request_fields-Applied :
      (o : Option Order) (raw raw' : RawTransaction) (req : TransactionRequest)
      → Fulfils p o raw
      → apply_request_fields p raw (record req { contract = none }) ≡ ok raw'
      → (before : IsConsistent p raw) × (q : IsConsistent p raw') × Applied req before.raw_data
          q.raw_data
  apply_request_fields-Applied none raw raw' req c h = elim c [ ]
  apply_request_fields-Applied (some o) raw raw' req c h =
      let (q, applied, _) =
        apply_request_fields-IsConsistent p raw raw' (record req { contract = none }) c.consistent
          (law c.consistent.tx) h in
      (c.consistent, q, but_contract req c.consistent.raw_data q.raw_data applied)

  module _ (m : Messages) (service : WalletService)
      (submit : SignedTransaction → Result TransportErrorKind (Unit {0})) where
    -- A transaction that is built for a request carries exactly the contract of the request, with the fee,
    -- memo, permission and block fields applied to it, whatever the node answered.
    pub build_via_transport-Requested :
        (req : TransactionRequest) (c : ContractType) (raw : RawTransaction)
        → req.contract ≡ some c
        → is_compared c ≡ true
        → build_via_transport p (grpc_transport p m service submit) req ≡ ok raw
        → Requested p m c raw × HasFields p m service c req raw
    unfolding build_via_transport
    build_via_transport-Requested req c raw asked compared h =
        bind_ok_then (ok_or req.contract (local_usage missing_contract)) _ h λ c' found h1.
          bind_ok_then (map_err promote (build_contract p m service c')) _ h1 λ raw0 built applied.
            let same : c' ≡ c = some-injective (sym (ok_or-ok req.contract _ found) ∙ asked) in
            let asked_of : build_contract p m service c ≡ ok raw0 =
              ap (build_contract p m service) (sym same) ∙ map_err-ok promote _ built in
            let order_met = build_contract-Requested p m service law c raw0 compared asked_of in
            let fields = map_err-ok (λ e. transport (of_response e)) _ applied in
            (
              apply_request_fields-Fulfils (order m c) raw0 raw (record req { contract = none })
                  order_met fields,
              (
                raw0,
                asked_of,
                apply_request_fields-Applied (order m c) raw0 raw req order_met fields,
              ),
            )
