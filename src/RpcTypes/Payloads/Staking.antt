-- ===== src/RpcTypes/Payloads/Staking.antt =====
-- crates/rpc-types/src/types/contract.rs: the payloads of the contracts for freezing, delegating and withdrawing.
use tronz.Prelude.{Option}
use tronz.Prelude.Int.{ℤ}
use tronz.Primitives.Address.{Address}
use tronz.Primitives.Amount.{Trx}
use tronz.Primitives.Resource.{ResourceCode}

pub record FreezeBalanceV1Contract : Type 0 where
  pub owner_address : Address
  pub frozen_balance : Trx
  pub frozen_duration : ℤ
  pub resource : ResourceCode
  pub receiver_address : Option Address

pub record UnfreezeBalanceV1Contract : Type 0 where
  pub owner_address : Address
  pub resource : ResourceCode
  pub receiver_address : Option Address

pub record FreezeBalanceV2Contract : Type 0 where
  pub owner_address : Address
  pub frozen_balance : Trx
  pub resource : ResourceCode

pub record UnfreezeBalanceV2Contract : Type 0 where
  pub owner_address : Address
  pub unfreeze_balance : Trx
  pub resource : ResourceCode

pub record DelegateResourceContract : Type 0 where
  pub owner_address : Address
  pub resource : ResourceCode
  pub balance : Trx
  pub receiver_address : Address
  pub lock_period : Option ℤ

pub record UnDelegateResourceContract : Type 0 where
  pub owner_address : Address
  pub resource : ResourceCode
  pub balance : Trx
  pub receiver_address : Address

pub record WithdrawExpireUnfreezeContract : Type 0 where
  pub owner_address : Address

pub record CancelAllUnfreezeV2Contract : Type 0 where
  pub owner_address : Address

pub record WithdrawBalanceContract : Type 0 where
  pub owner_address : Address
