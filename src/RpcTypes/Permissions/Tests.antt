-- ===== src/RpcTypes/Permissions/Tests.antt =====
-- Runs of the permissions of an account at concrete inputs.
use tronz.Prelude.{
  ◌≡◌, sym, ◌⊎◌, ◌↔◌, refl, true, false, none, some, [], ◌∷◌, replicate, arith, Bool-cases, inl,
  inr, some-injective,
}
use tronz.Prelude.Int.{◌+ℤ◌, pos, eqb_ℤ}
use tronz.Primitives.Address.{Address, address_zero}
use tronz.RpcTypes.Kind.{transfer}
use tronz.RpcTypes.Operations.{empty, contains}
use tronz.RpcTypes.Permissions.{
  Permission, AccountPermissions, weight_of, find_weight, weight_of_all, is_satisfied_by, allows,
  address_eq, weigh, among,
}
use tronz.RpcTypes.Permissions.Weights.{
  weight_of_all-distinct, distinct, total_weight, is_satisfied_by-append, Weighs,
}
use tronz.RpcTypes.Permissions.Grants.{allows_iff, IsActive}

abbrev second : Address
second = record { bytes = 65 ∷ replicate 20 1 }

-- Two keys of the weights 1 and 2, of which two thirds are asked for.
abbrev shared_account : Permission
shared_account = record {
  id = pos 2;
  permission_name = [];
  threshold = pos 2;
  keys =
      (record { address = address_zero; weight = pos 1 })
      ∷ (record { address = second; weight = pos 2 })
      ∷ [];
  operations = empty;
}

abbrev account : AccountPermissions
account = record { owner = some shared_account; witness = none; actives = shared_account ∷ [] }

weight_of_all-distinct_example :
    weight_of_all shared_account (second ∷ second ∷ [])
    ≡ total_weight shared_account (distinct [] (second ∷ second ∷ [])) (pos 0)
weight_of_all-distinct_example = weight_of_all-distinct shared_account (second ∷ second ∷ [])

shared_account-Weighs : Weighs 2 shared_account
unfolding weight_of find_weight
shared_account-Weighs a w h = elim (Bool-cases (address_eq address_zero a)) [
  | inl is_first ↦ (1, sym (some-injective (rw is_first at h)), omega arith)
  | inr is_other ↦ elim (Bool-cases (address_eq second a)) [
    | inl is_second ↦ (2, sym (some-injective (rw (is_other, is_second) at h)), omega arith)
    | inr unknown ↦ absurd (cc (rw (is_other, unknown) at h))
  ]
]

second_satisfies : is_satisfied_by shared_account (second ∷ []) ≡ true
unfolding is_satisfied_by weight_of_all weigh weight_of find_weight among ◌+ℤ◌
second_satisfies = refl

is_satisfied_by-append_example : is_satisfied_by shared_account (second ∷ address_zero ∷ []) ≡ true
is_satisfied_by-append_example =
    is_satisfied_by-append shared_account 2 (second ∷ []) (address_zero ∷ []) shared_account-Weighs
      (omega arith) second_satisfies

allows_iff_example : (allows account (pos 2) transfer ≡ true) ↔ (
    ((eqb_ℤ (pos 2) (pos 0) ≡ true) × ((p : Permission) × (account.owner ≡ some p)))
    ⊎ ((eqb_ℤ (pos 2) (pos 0) ≡ false)
        × (eqb_ℤ (pos 2) (pos 1) ≡ false)
        × ((p : Permission) × IsActive account.actives (pos 2) p
            × (contains p.operations transfer ≡ true))))
allows_iff_example = allows_iff account (pos 2) transfer
