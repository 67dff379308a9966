-- ===== src/RpcTypes/Kind.antt =====
-- crates/rpc-types/src/types/contract.rs: `ContractKind`, its protobuf ids, and where the owner of
-- each kind stands in its payload. The match on the id is cut into three ranges.
pub mod Ids
use tronz.Prelude.{ℕ, ◌≡◌, Option, none, some, ◌==◌, if◌then◌else◌, Bool, leb}
use tronz.Prelude.Int.{ℤ, pos, negsuc}

pub data ContractKind : Type 0 where
  create_account transfer transfer_asset vote_asset : ContractKind
  vote_witness create_witness asset_issue update_witness : ContractKind
  participate_asset_issue update_account freeze_balance_v1 unfreeze_balance_v1 : ContractKind
  withdraw_balance unfreeze_asset update_asset proposal_create : ContractKind
  proposal_approve proposal_delete set_account_id custom : ContractKind
  create_smart_contract trigger_smart_contract get_contract update_setting : ContractKind
  exchange_create exchange_inject exchange_withdraw exchange_transaction : ContractKind
  update_energy_limit account_permission_update clear_contract_abi update_brokerage : ContractKind
  shielded_transfer market_sell_asset market_cancel_order freeze_balance_v2 : ContractKind
  unfreeze_balance_v2 withdraw_expire_unfreeze delegate_resource un_delegate_resource : ContractKind
  cancel_all_unfreeze_v2 : ContractKind
  unknown : ℤ → ContractKind

from_48 : ℕ → ContractKind
from_48 n =
    if n == 48
    then clear_contract_abi
    else if n == 49
    then update_brokerage
    else if n == 51
    then shielded_transfer
    else if n == 52
    then market_sell_asset
    else if n == 53
    then market_cancel_order
    else if n == 54
    then freeze_balance_v2
    else if n == 55
    then unfreeze_balance_v2
    else if n == 56
    then withdraw_expire_unfreeze
    else if n == 57
    then delegate_resource
    else if n == 58
    then un_delegate_resource
    else if n == 59
    then cancel_all_unfreeze_v2
    else unknown (pos n)

from_21 : ℕ → ContractKind
from_21 n =
    if n == 30
    then create_smart_contract
    else if n == 31
    then trigger_smart_contract
    else if n == 32
    then get_contract
    else if n == 33
    then update_setting
    else if n == 41
    then exchange_create
    else if n == 42
    then exchange_inject
    else if n == 43
    then exchange_withdraw
    else if n == 44
    then exchange_transaction
    else if n == 45
    then update_energy_limit
    else if n == 46
    then account_permission_update
    else unknown (pos n)

from_0 : ℕ → ContractKind
from_0 n =
    if n == 0
    then create_account
    else if n == 1
    then transfer
    else if n == 2
    then transfer_asset
    else if n == 3
    then vote_asset
    else if n == 4
    then vote_witness
    else if n == 5
    then create_witness
    else if n == 6
    then asset_issue
    else if n == 8
    then update_witness
    else if n == 9
    then participate_asset_issue
    else if n == 10
    then update_account
    else if n == 11
    then freeze_balance_v1
    else if n == 12
    then unfreeze_balance_v1
    else if n == 13
    then withdraw_balance
    else if n == 14
    then unfreeze_asset
    else if n == 15
    then update_asset
    else if n == 16
    then proposal_create
    else if n == 17
    then proposal_approve
    else if n == 18
    then proposal_delete
    else if n == 19
    then set_account_id
    else if n == 20
    then custom
    else unknown (pos n)

-- `From<i32> for ContractKind`.
pub from_i32 : ℤ → ContractKind
from_i32 (pos n) = if leb 48 n then from_48 n else if leb 21 n then from_21 n else from_0 n
from_i32 (negsuc n) = unknown (negsuc n)

-- `ContractKind::id`.
unfoldable pub id : ContractKind → ℤ
id create_account = pos 0
id transfer = pos 1
id transfer_asset = pos 2
id vote_asset = pos 3
id vote_witness = pos 4
id create_witness = pos 5
id asset_issue = pos 6
id update_witness = pos 8
id participate_asset_issue = pos 9
id update_account = pos 10
id freeze_balance_v1 = pos 11
id unfreeze_balance_v1 = pos 12
id withdraw_balance = pos 13
id unfreeze_asset = pos 14
id update_asset = pos 15
id proposal_create = pos 16
id proposal_approve = pos 17
id proposal_delete = pos 18
id set_account_id = pos 19
id custom = pos 20
id create_smart_contract = pos 30
id trigger_smart_contract = pos 31
id get_contract = pos 32
id update_setting = pos 33
id exchange_create = pos 41
id exchange_inject = pos 42
id exchange_withdraw = pos 43
id exchange_transaction = pos 44
id update_energy_limit = pos 45
id account_permission_update = pos 46
id clear_contract_abi = pos 48
id update_brokerage = pos 49
id shielded_transfer = pos 51
id market_sell_asset = pos 52
id market_cancel_order = pos 53
id freeze_balance_v2 = pos 54
id unfreeze_balance_v2 = pos 55
id withdraw_expire_unfreeze = pos 56
id delegate_resource = pos 57
id un_delegate_resource = pos 58
id cancel_all_unfreeze_v2 = pos 59
id (unknown i) = i

pub data OwnerField : Type 0 where
  first second : OwnerField

pub owner_field : ContractKind → Option OwnerField
owner_field transfer_asset = some second
owner_field update_account = some second
owner_field set_account_id = some second
owner_field shielded_transfer = none
owner_field custom = none
owner_field get_contract = none
owner_field (unknown i) = none
owner_field _ = some first
