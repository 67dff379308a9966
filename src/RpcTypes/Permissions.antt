-- ===== src/RpcTypes/Permissions.antt =====
-- crates/rpc-types/src/types/contract.rs, `Permission`, and crates/rpc-types/src/types/account.rs,
-- `AccountPermissions`: who may sign for an account, with what weight, and for what.
pub mod Weights
pub mod Grants
mod Tests
use tronz.Prelude.{
  ℕ, ◌≡◌, Bool, true, false, not, ◌||◌, Option, none, some, List, [], ◌∷◌, ◌++◌, Bytes, bytes_eq,
  if◌then◌else◌,
}
use tronz.Prelude.Int.{ℤ, pos, ◌+ℤ◌, leb_ℤ, eqb_ℤ, wrap_i64}
use tronz.Primitives.Address.{Address}
use tronz.RpcTypes.Kind.{ContractKind}
use tronz.RpcTypes.Operations.{OperationSet, contains}

pub record PermissionKey : Type 0 where
  pub address : Address
  pub weight : ℤ

pub record Permission : Type 0 where
  pub id : ℤ
  pub permission_name : Bytes
  pub threshold : ℤ
  pub keys : List PermissionKey
  pub operations : OperationSet

abbrev pub address_eq : Address → Address → Bool
address_eq a b = bytes_eq a.bytes b.bytes

unfoldable pub find_weight : List PermissionKey → Address → Option ℤ
find_weight [] a = none
find_weight (k ∷ ks) a = if address_eq k.address a then some k.weight else find_weight ks a

unfoldable pub weight_of : Permission → Address → Option ℤ
unfolding find_weight
weight_of p a = find_weight p.keys a

-- `counted.contains(&address)`.
unfoldable pub among : List Address → Address → Bool
among [] a = false
among (b ∷ bs) a = address_eq b a || among bs a

-- The loop of `weight_of_all`, with the addresses that were counted, the latest first.
abbrev pub counted_on : (List Address → ℤ → ℤ) → List Address → ℤ → Address → Option ℤ → ℤ
counted_on rest counted total a none = rest counted total
counted_on rest counted total a (some weight) = rest (a ∷ counted) (wrap_i64 (total +ℤ weight))

pub weigh : Permission → List Address → List Address → ℤ → ℤ
unfolding weight_of among
weigh p [] counted total = total
weigh p (a ∷ more) counted total =
    let rest = weigh p more in
    if among counted a then rest counted total else counted_on rest counted total a (weight_of p a)

pub weight_of_all : Permission → List Address → ℤ
unfolding weigh
weight_of_all p keys = weigh p keys [] (pos 0)

pub is_satisfied_by : Permission → List Address → Bool
unfolding weight_of_all
is_satisfied_by p keys = leb_ℤ p.threshold (weight_of_all p keys)

pub record AccountPermissions : Type 0 where
  pub owner : Option Permission
  pub witness : Option Permission
  pub actives : List Permission

pub data PermissionRef : Type 0 where
  by_owner by_witness by_active : Permission → PermissionRef

abbrev pub map_option : {A B : Type 0} → (A → B) → Option A → Option B
map_option f none = none
map_option f (some a) = some (f a)

pub find_active : List Permission → ℤ → Option Permission
find_active [] i = none
find_active (p ∷ ps) i = if eqb_ℤ p.id i then some p else find_active ps i

pub locate : AccountPermissions → ℤ → Option PermissionRef
unfolding find_active
locate ps i =
    if eqb_ℤ i (pos 0)
    then map_option by_owner ps.owner
    else if eqb_ℤ i (pos 1)
    then map_option by_witness ps.witness
    else map_option by_active (find_active ps.actives i)

abbrev pub held : PermissionRef → Permission
held (by_owner p) = p
held (by_witness p) = p
held (by_active p) = p

pub by_id : AccountPermissions → ℤ → Option Permission
unfolding locate
by_id ps i = map_option held (locate ps i)

abbrev pub authorizes : Option PermissionRef → ContractKind → Bool
authorizes none kind = false
authorizes (some (by_owner p)) kind = true
authorizes (some (by_witness p)) kind = false
authorizes (some (by_active p)) kind = contains p.operations kind

pub allows : AccountPermissions → ℤ → ContractKind → Bool
unfolding locate
allows ps permission_id kind = authorizes (locate ps permission_id) kind
