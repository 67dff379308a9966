-- ===== src/RpcTypes/Response/Sent.antt =====
-- The weights of a converted permission.
use tronz.Prelude.{
  ℕ, zero, suc, ◌-◌, ◌<◌, ◌≡◌, refl, sym, ap, ◌∙◌, subst, not, ◌&&◌, Option, none, some, List, [],
  ◌∷◌, Bytes, ok, map_err, bytes_eq, bytes_eq_iff, bind_ok_then, map_err-ok, ok-injective,
  Result-cases, Bool-cases, inl, inr, All, arith, length, take, drop, replicate, min, length-append,
  length-take, length-replicate, All-append, if◌then◌else◌, ltb,
}
use tronz.Prelude.Int.{ℤ}
use tronz.Primitives.Address.{Address, IsAddress, from_slice}
use tronz.Primitives.Address.Slices.{from_slice_iff}
use tronz.RpcTypes.Operations.{OperationSet, IsOperationSet, from_bytes, all_zero}
use tronz.RpcTypes.Operations.Sets.{replicate-All}
use tronz.RpcTypes.Permissions.{Permission, weight_of, find_weight}
use tronz.RpcTypes.Messages.Accounts.{KeyMessage, PermissionMessage}
use tronz.RpcTypes.Response.{keys_from_proto, permission_from_proto, push_key, bad_operations}

-- The weight of the first key that was sent with these bytes.
abbrev pub sent_weight : List KeyMessage → Bytes → Option ℤ
sent_weight [] bytes = none
sent_weight (k ∷ ks) bytes =
    if bytes_eq k.address bytes then some k.weight else sent_weight ks bytes

keys_from_proto-sent_weight :
    (ks : List KeyMessage) (a : Address)
    → IsAddress a
    → find_weight (keys_from_proto ks) a ≡ sent_weight ks a.bytes
unfolding keys_from_proto find_weight
keys_from_proto-sent_weight [] a good = refl
keys_from_proto-sent_weight (k ∷ ks) a good = elim (Result-cases (from_slice k.address)) [
  | inl (b, read) ↦
      ap (λ r. find_weight (push_key r k.weight (keys_from_proto ks)) a)
        (read ∙ ap ok ((from_slice_iff k.address b).0 read).0)
      ∙ ap (λ t. if bytes_eq k.address a.bytes then some k.weight else t)
          (keys_from_proto-sent_weight ks a good)
  | inr (x, bad) ↦ elim (Bool-cases (bytes_eq k.address a.bytes)) [
    | inl same ↦
        let bytes = (bytes_eq_iff k.address a.bytes).0 same in
        absurd (cc (bad, ap from_slice bytes, (from_slice_iff a.bytes a).1 (refl, good)))
    | inr other ↦
        ap (λ r. find_weight (push_key r k.weight (keys_from_proto ks)) a) bad
        ∙ keys_from_proto-sent_weight ks a good
        ∙ ap (λ t. if t then some k.weight else sent_weight ks a.bytes) (sym other)
  ]
]

take-All : (n : ℕ) (bs : Bytes) → All (λ b. b < 256) bs → All (λ b. b < 256) (take n bs)
take-All zero bs h = tt
take-All (suc n) [] h = tt
take-All (suc n) (b ∷ bs) (h, hs) = (h, take-All n bs hs)

from_bytes-IsOperationSet :
    (bs : Bytes) (s : OperationSet)
    → All (λ b. b < 256) bs
    → from_bytes bs ≡ ok s
    → IsOperationSet s
unfolding from_bytes
from_bytes-IsOperationSet bs s small h =
    elim (Bool-cases (ltb 32 (length bs) && not (all_zero (drop 32 bs)))) [
      | inl excess ↦ absurd (cc (rw excess at h))
      | inr fits ↦ subst IsOperationSet (ok-injective (rw fits at h)) (
        omega (
          arith,
          length-append (take 32 bs) (replicate (32 - min (length bs) 32) 0),
          length-take 32 bs,
          length-replicate {A = ℕ} (32 - min (length bs) 32) 0,
        ),
        All-append (λ b. b < 256) (take 32 bs) (replicate (32 - min (length bs) 32) 0)
            (take-All 32 bs small)
            (replicate-All (λ b. b < 256) (32 - min (length bs) 32) 0 (omega arith)),
      )
    ]

-- A permission that is converted keeps its id and its threshold, its operations are 32 bytes, and it
-- gives each address the weight of the first key that was sent with the bytes of this address: a key
-- that is no address is skipped, and takes nothing from the others.
pub permission_from_proto-sent_weight :
    (p : PermissionMessage) (q : Permission)
    → All (λ b. b < 256) p.operations
    → permission_from_proto p ≡ ok q
    → (q.id ≡ p.id)
      × (q.threshold ≡ p.threshold)
      × IsOperationSet q.operations
      × ((a : Address) → IsAddress a → weight_of q a ≡ sent_weight p.keys a.bytes)
unfolding permission_from_proto weight_of
permission_from_proto-sent_weight p q small h =
    bind_ok_then (map_err bad_operations (from_bytes p.operations)) _ h λ operations read made.
      let same = ok-injective made in
      (
        ap (λ r. r.id) (sym same),
        ap (λ r. r.threshold) (sym same),
        subst (λ r. IsOperationSet r.operations) same
            (from_bytes-IsOperationSet p.operations operations small
              (map_err-ok bad_operations _ read)),
        λ a good.
            ap (λ r. find_weight r.keys a) (sym same) ∙ keys_from_proto-sent_weight p.keys a good,
      )
