-- ===== src/RpcTypes/Payloads/Contracts.antt =====
-- crates/rpc-types/src/types/contract.rs: the payloads of the contracts for smart contracts.
use tronz.Prelude.{Bytes}
use tronz.Prelude.Int.{ℤ}
use tronz.Primitives.Address.{Address}
use tronz.Primitives.Amount.{Trx}
use tronz.Abi.Entries.{TronAbi}

pub record TriggerSmartContract : Type 0 where
  pub owner_address : Address
  pub contract_address : Address
  pub call_value : Trx
  pub call_data : Bytes
  pub call_token_value : Trx
  pub token_id : ℤ

pub record CreateSmartContract : Type 0 where
  pub owner_address : Address
  pub bytecode : Bytes
  pub abi : TronAbi
  pub call_value : Trx
  pub consume_user_resource_percent : ℤ
  pub origin_energy_limit : ℤ
  pub name : Bytes

pub record ClearContractAbiContract : Type 0 where
  pub owner_address : Address
  pub contract_address : Address

pub record UpdateSettingContract : Type 0 where
  pub owner_address : Address
  pub contract_address : Address
  pub consume_user_resource_percent : ℤ

pub record UpdateEnergyLimitContract : Type 0 where
  pub owner_address : Address
  pub contract_address : Address
  pub origin_energy_limit : ℤ
