-- ===== src/RpcTypes/Response.antt =====
-- crates/rpc-types/src/codec/mod.rs: the permissions of an account, as a node answers them. What is
-- malformed is skipped, as the code does.
pub mod Sent
mod Tests
use tronz.Prelude.{ℕ, Option, none, some, List, [], ◌∷◌, Bytes, Result, ok, err, ◌>>=◌, map_err}
use tronz.Prelude.Int.{ℤ}
use tronz.Primitives.Address.{Address, AddressError, from_slice}
use tronz.RpcTypes.Operations.{OperationSetError, from_bytes}
use tronz.RpcTypes.Permissions.{PermissionKey, Permission, AccountPermissions}
use tronz.RpcTypes.Messages.Accounts.{KeyMessage, PermissionMessage, VoteMessage}

-- The generated messages, as far as the conversion reads them.
pub record FreezeMessage : Type 0 where
  pub resource_type : ℤ
  pub amount : ℤ

pub record UnfreezeMessage : Type 0 where
  pub resource_type : ℤ
  pub unfreeze_amount : ℤ
  pub unfreeze_expire_time : ℤ

pub record AccountMessage : Type 0 where
  pub account_name : Bytes
  pub address : Bytes
  pub balance : ℤ
  pub votes : List VoteMessage
  pub asset_v2 : List (Bytes × ℤ)
  pub frozen_v2 : List FreezeMessage
  pub unfrozen_v2 : List UnfreezeMessage
  pub owner_permission : Option PermissionMessage
  pub witness_permission : Option PermissionMessage
  pub active_permission : List PermissionMessage

-- The `ResponseError::Malformed` of a permission, by its cause.
pub data MalformedPermission : Type 0 where
  bad_operations : OperationSetError → MalformedPermission

abbrev pub push_key : Result AddressError Address → ℤ → List PermissionKey → List PermissionKey
push_key (err x) weight rest = rest
push_key (ok a) weight rest = record { address = a; weight = weight } ∷ rest

pub keys_from_proto : List KeyMessage → List PermissionKey
keys_from_proto [] = []
keys_from_proto (k ∷ ks) = push_key (from_slice k.address) k.weight (keys_from_proto ks)

pub permission_from_proto : PermissionMessage → Result MalformedPermission Permission
unfolding keys_from_proto
permission_from_proto p = map_err bad_operations (from_bytes p.operations) >>= λ operations.
    ok (record {
      id = p.id;
      permission_name = p.permission_name;
      threshold = p.threshold;
      keys = keys_from_proto p.keys;
      operations = operations;
    })

abbrev pub ok_option : Result MalformedPermission Permission → Option Permission
ok_option (ok p) = some p
ok_option (err x) = none

abbrev pub optional_permission : Option PermissionMessage → Option Permission
optional_permission none = none
optional_permission (some p) = ok_option (permission_from_proto p)

abbrev pub push_permission : Option Permission → List Permission → List Permission
push_permission none rest = rest
push_permission (some p) rest = p ∷ rest

pub actives_from_proto : List PermissionMessage → List Permission
actives_from_proto [] = []
actives_from_proto (p ∷ ps) =
    push_permission (ok_option (permission_from_proto p)) (actives_from_proto ps)

pub permissions_from_proto : AccountMessage → AccountPermissions
unfolding actives_from_proto
permissions_from_proto a = record {
  owner = optional_permission a.owner_permission;
  witness = optional_permission a.witness_permission;
  actives = actives_from_proto a.active_permission;
}
