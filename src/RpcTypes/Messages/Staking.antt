-- ===== src/RpcTypes/Messages/Staking.antt =====
-- The generated messages for freezing, delegating and withdrawing, and what a request puts into them:
-- crates/provider/src/transport/grpc/fullnode.rs.
use tronz.Prelude.{Bool, true, false, Option, none, some, [], Bytes}
use tronz.Prelude.Int.{ℤ, pos}
use tronz.Primitives.Address.{Address}
use tronz.Primitives.Resource.{as_i32}
use tronz.RpcTypes.Payloads.Staking.{
  FreezeBalanceV1Contract, UnfreezeBalanceV1Contract, FreezeBalanceV2Contract,
  UnfreezeBalanceV2Contract, DelegateResourceContract, UnDelegateResourceContract,
  WithdrawExpireUnfreezeContract, CancelAllUnfreezeV2Contract, WithdrawBalanceContract,
}

abbrev pub optional_bytes : Option Address → Bytes
optional_bytes none = []
optional_bytes (some a) = a.bytes

abbrev pub is_locked : Option ℤ → Bool
is_locked none = false
is_locked (some n) = true

abbrev pub or_zero : Option ℤ → ℤ
or_zero none = pos 0
or_zero (some n) = n

pub record FreezeBalanceContractMessage : Type 0 where
  pub owner_address : Bytes
  pub frozen_balance : ℤ
  pub frozen_duration : ℤ
  pub resource : ℤ
  pub receiver_address : Bytes

abbrev pub freeze_balance_v1_to_proto : FreezeBalanceV1Contract → FreezeBalanceContractMessage
freeze_balance_v1_to_proto p = record {
  owner_address = p.owner_address.bytes;
  frozen_balance = p.frozen_balance.sun;
  frozen_duration = p.frozen_duration;
  resource = as_i32 p.resource;
  receiver_address = optional_bytes p.receiver_address;
}

pub record UnfreezeBalanceContractMessage : Type 0 where
  pub owner_address : Bytes
  pub resource : ℤ
  pub receiver_address : Bytes

abbrev pub unfreeze_balance_v1_to_proto : UnfreezeBalanceV1Contract → UnfreezeBalanceContractMessage
unfreeze_balance_v1_to_proto p = record {
  owner_address = p.owner_address.bytes;
  resource = as_i32 p.resource;
  receiver_address = optional_bytes p.receiver_address;
}

pub record FreezeBalanceV2ContractMessage : Type 0 where
  pub owner_address : Bytes
  pub frozen_balance : ℤ
  pub resource : ℤ

abbrev pub freeze_balance_v2_to_proto : FreezeBalanceV2Contract → FreezeBalanceV2ContractMessage
freeze_balance_v2_to_proto p = record {
  owner_address = p.owner_address.bytes;
  frozen_balance = p.frozen_balance.sun;
  resource = as_i32 p.resource;
}

pub record UnfreezeBalanceV2ContractMessage : Type 0 where
  pub owner_address : Bytes
  pub unfreeze_balance : ℤ
  pub resource : ℤ

abbrev pub unfreeze_balance_v2_to_proto :
    UnfreezeBalanceV2Contract → UnfreezeBalanceV2ContractMessage
unfreeze_balance_v2_to_proto p = record {
  owner_address = p.owner_address.bytes;
  unfreeze_balance = p.unfreeze_balance.sun;
  resource = as_i32 p.resource;
}

pub record DelegateResourceContractMessage : Type 0 where
  pub owner_address : Bytes
  pub resource : ℤ
  pub balance : ℤ
  pub receiver_address : Bytes
  pub lock : Bool
  pub lock_period : ℤ

abbrev pub delegate_resource_to_proto : DelegateResourceContract → DelegateResourceContractMessage
delegate_resource_to_proto p = record {
  owner_address = p.owner_address.bytes;
  resource = as_i32 p.resource;
  balance = p.balance.sun;
  receiver_address = p.receiver_address.bytes;
  lock = is_locked p.lock_period;
  lock_period = or_zero p.lock_period;
}

pub record UnDelegateResourceContractMessage : Type 0 where
  pub owner_address : Bytes
  pub resource : ℤ
  pub balance : ℤ
  pub receiver_address : Bytes

abbrev pub un_delegate_resource_to_proto :
    UnDelegateResourceContract → UnDelegateResourceContractMessage
un_delegate_resource_to_proto p = record {
  owner_address = p.owner_address.bytes;
  resource = as_i32 p.resource;
  balance = p.balance.sun;
  receiver_address = p.receiver_address.bytes;
}

pub record WithdrawExpireUnfreezeContractMessage : Type 0 where
  pub owner_address : Bytes

abbrev pub withdraw_expire_unfreeze_to_proto :
    WithdrawExpireUnfreezeContract → WithdrawExpireUnfreezeContractMessage
withdraw_expire_unfreeze_to_proto p = record { owner_address = p.owner_address.bytes }

pub record CancelAllUnfreezeV2ContractMessage : Type 0 where
  pub owner_address : Bytes

abbrev pub cancel_all_unfreeze_v2_to_proto :
    CancelAllUnfreezeV2Contract → CancelAllUnfreezeV2ContractMessage
cancel_all_unfreeze_v2_to_proto p = record { owner_address = p.owner_address.bytes }

pub record WithdrawBalanceContractMessage : Type 0 where
  pub owner_address : Bytes

abbrev pub withdraw_balance_to_proto : WithdrawBalanceContract → WithdrawBalanceContractMessage
withdraw_balance_to_proto p = record { owner_address = p.owner_address.bytes }
