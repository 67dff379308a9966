-- ===== src/RpcTypes/Details/Owners.antt =====
-- The details of a transaction with one contract.
use tronz.Prelude.{◌≡◌, refl, some, [], ◌∷◌, Bytes, length, Result, ok, ◌>>=◌, arith}
use tronz.Primitives.Address.{Address, IsAddress}
use tronz.RpcTypes.Kind.{ContractKind, OwnerField, owner_field, from_i32}
use tronz.RpcTypes.Answers.{addr, collect_results}
use tronz.RpcTypes.Answers.Addresses.{addr_iff}
use tronz.RpcTypes.Transaction.{Proto, ProtoContract, RawTransaction}
use tronz.RpcTypes.Transaction.Ids.{IsConsistent}
use tronz.RpcTypes.Details.{optional_owner, contract_details, details}

module _ (p : Proto) (owner_at : OwnerField → Bytes → Result Bytes Bytes) where
  optional_owner-address : (a : Address) → IsAddress a → optional_owner a.bytes ≡ ok (some a)
  optional_owner-address a good = named a.bytes good.0 (λ i. addr_of_a i >>= λ t. ok (some t))
    where
      addr_of_a : addr a.bytes ≡ ok a
      addr_of_a = (addr_iff a.bytes a).1 (refl, good)

      named :
          (bytes : Bytes)
          → length bytes ≡ 21
          → (addr bytes >>= λ t. ok (some t)) ≡ ok (some a)
          → optional_owner bytes ≡ ok (some a)
      named [] long h = absurd (omega (arith, long))
      named (b ∷ bs) long h = h

  -- The details of a transaction that is read back have its fee limit and memo, and for its one contract,
  -- of a kind that the client knows the owner's field of, this kind and its owner, if prost reads the
  -- owner's bytes from the field of the kind, and back the transactions that it wrote.
  pub details-IsConsistent :
      (raw : RawTransaction) (c : IsConsistent p raw) (contract : ProtoContract)
      (kind : ContractKind) (field : OwnerField) (value : Bytes) (owner : Address)
      → p.decode (p.encode c.tx) ≡ ok c.tx
      → c.raw_data.contract ≡ contract ∷ []
      → from_i32 contract.kind ≡ kind
      → owner_field kind ≡ some field
      → contract.parameter ≡ some value
      → owner_at field value ≡ ok owner.bytes
      → IsAddress owner
      → details p owner_at raw
        ≡ ok (record {
          fee_limit = record { sun = c.raw_data.fee_limit };
          memo = c.raw_data.memo;
          contracts = record { kind = kind; owner = some owner } ∷ [];
        })
  unfolding details collect_results contract_details
  details-IsConsistent raw c contract kind field value owner reads alone of_kind known given read
        good =
      rw
        (
          c.bytes,
          reads,
          c.carries,
          alone,
          of_kind,
          known,
          given,
          read,
          optional_owner-address owner good,
        )
        refl
