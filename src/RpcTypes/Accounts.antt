-- ===== src/RpcTypes/Accounts.antt =====
-- crates/rpc-types/src/types/account.rs, `AccountInfo`, and its conversion `account_from_proto` in
-- crates/rpc-types/src/codec/mod.rs. The lossy reading of text is a parameter.
pub mod Found
mod Tests
use tronz.Prelude.{
  ℕ, ◌≡◌, Bool, true, false, not, Option, none, some, List, [], ◌∷◌, Bytes, Result, ok, err, ◌>>=◌,
  if◌then◌else◌,
}
use tronz.Prelude.Int.{ℤ}
use tronz.Primitives.Address.{Address}
use tronz.Primitives.Amount.{Trx}
use tronz.Primitives.Resource.{ResourceCode, from_i32}
use tronz.RpcTypes.Wire.{ResponseError}
use tronz.RpcTypes.Block.{is_empty}
use tronz.RpcTypes.Permissions.{AccountPermissions, map_option}
use tronz.RpcTypes.Messages.Accounts.{VoteMessage}
use tronz.RpcTypes.Answers.{addr, ok_or_none, filter_map}
use tronz.RpcTypes.Response.{AccountMessage, FreezeMessage, UnfreezeMessage, permissions_from_proto}

pub record FreezeV2 : Type 0 where
  pub resource : ResourceCode
  pub amount : Trx

pub record UnfreezeV2 : Type 0 where
  pub resource : ResourceCode
  pub amount : Trx
  pub expire_time_ms : ℤ

pub record Vote : Type 0 where
  pub vote_address : Address
  pub vote_count : ℤ

pub record AccountInfo : Type 0 where
  pub address : Address
  pub balance : Trx
  pub name : Bytes
  pub is_activated : Bool
  pub frozen_v2 : List FreezeV2
  pub unfrozen_v2 : List UnfreezeV2
  pub votes : List Vote
  pub permissions : AccountPermissions
  pub trc10_balances : List (Bytes × ℤ)

abbrev pub freeze_from_proto : FreezeMessage → Option FreezeV2
freeze_from_proto f =
    map_option (λ r. record { resource = r; amount = record { sun = f.amount } })
      (from_i32 f.resource_type)

abbrev pub unfreeze_from_proto : UnfreezeMessage → Option UnfreezeV2
unfreeze_from_proto u =
    map_option
      (λ r. record {
        resource = r;
        amount = record { sun = u.unfreeze_amount };
        expire_time_ms = u.unfreeze_expire_time;
      })
      (from_i32 u.resource_type)

abbrev pub vote_from_proto : VoteMessage → Option Vote
vote_from_proto v =
    map_option (λ a. record { vote_address = a; vote_count = v.vote_count })
      (ok_or_none (addr v.vote_address))

pub account_from_proto :
    (Bytes → Bytes) → AccountMessage → Address → Result ResponseError AccountInfo
account_from_proto lossy a queried =
    (if is_empty a.address then ok queried else addr a.address) >>= λ address. ok (record {
      address = address;
      balance = record { sun = a.balance };
      name = lossy a.account_name;
      is_activated = not (is_empty a.address);
      frozen_v2 = filter_map freeze_from_proto a.frozen_v2;
      unfrozen_v2 = filter_map unfreeze_from_proto a.unfrozen_v2;
      votes = filter_map vote_from_proto a.votes;
      permissions = permissions_from_proto a;
      trc10_balances = a.asset_v2;
    })
