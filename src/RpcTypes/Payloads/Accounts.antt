-- ===== src/RpcTypes/Payloads/Accounts.antt =====
-- crates/rpc-types/src/types/contract.rs: the payloads of the contracts for transfers, accounts, permissions, votes, witnesses and proposals.
use tronz.Prelude.{Bool, Option, List, Bytes}
use tronz.Prelude.Int.{ℤ}
use tronz.Primitives.Address.{Address}
use tronz.Primitives.Amount.{Trx}
use tronz.RpcTypes.Permissions.{Permission}

pub record SrVote : Type 0 where
  pub vote_address : Address
  pub vote_count : ℤ

pub record TransferContract : Type 0 where
  pub owner_address : Address
  pub to_address : Address
  pub amount : Trx

pub record CreateAccountContract : Type 0 where
  pub owner_address : Address
  pub account_address : Address

pub record UpdateAccountContract : Type 0 where
  pub owner_address : Address
  pub name : Bytes

pub record SetAccountIdContract : Type 0 where
  pub owner_address : Address
  pub account_id : Bytes

pub record AccountPermissionUpdateContract : Type 0 where
  pub owner_address : Address
  pub owner : Option Permission
  pub witness : Option Permission
  pub actives : List Permission

pub record VoteWitnessContract : Type 0 where
  pub owner_address : Address
  pub votes : List SrVote

pub record CreateWitnessContract : Type 0 where
  pub owner_address : Address
  pub url : Bytes

pub record UpdateWitnessContract : Type 0 where
  pub owner_address : Address
  pub update_url : Bytes

pub record UpdateBrokerageContract : Type 0 where
  pub owner_address : Address
  pub brokerage : ℤ

pub record ProposalCreateContract : Type 0 where
  pub owner_address : Address
  pub parameters : List (ℤ × ℤ)

pub record ProposalApproveContract : Type 0 where
  pub owner_address : Address
  pub proposal_id : ℤ
  pub is_add_approval : Bool

pub record ProposalDeleteContract : Type 0 where
  pub owner_address : Address
  pub proposal_id : ℤ
