-- ===== src/RpcTypes/Messages/Contracts.antt =====
-- The generated messages for smart contracts, and what a request puts into them:
-- crates/rpc-types/src/codec/mod.rs.
use tronz.Prelude.{Option, some, [], Bytes}
use tronz.Prelude.Int.{ℤ, pos}
use tronz.RpcTypes.Messages.Abi.{AbiMessage, to_proto}
use tronz.RpcTypes.Payloads.Contracts.{
  TriggerSmartContract, CreateSmartContract, ClearContractAbiContract, UpdateSettingContract,
  UpdateEnergyLimitContract,
}

-- `proto::SmartContract`.
pub record SmartContractMessage : Type 0 where
  pub origin_address : Bytes
  pub contract_address : Bytes
  pub abi : Option AbiMessage
  pub bytecode : Bytes
  pub call_value : ℤ
  pub consume_user_resource_percent : ℤ
  pub name : Bytes
  pub origin_energy_limit : ℤ
  pub code_hash : Bytes
  pub trx_hash : Bytes
  pub version : ℤ

pub record TriggerSmartContractMessage : Type 0 where
  pub owner_address : Bytes
  pub contract_address : Bytes
  pub call_value : ℤ
  pub call_data : Bytes
  pub call_token_value : ℤ
  pub token_id : ℤ

abbrev pub trigger_smart_contract_to_proto : TriggerSmartContract → TriggerSmartContractMessage
trigger_smart_contract_to_proto p = record {
  owner_address = p.owner_address.bytes;
  contract_address = p.contract_address.bytes;
  call_value = p.call_value.sun;
  call_data = p.call_data;
  call_token_value = p.call_token_value.sun;
  token_id = p.token_id;
}

pub record CreateSmartContractMessage : Type 0 where
  pub owner_address : Bytes
  pub new_contract : Option SmartContractMessage
  pub call_token_value : ℤ
  pub token_id : ℤ

abbrev pub create_smart_contract_to_proto : CreateSmartContract → CreateSmartContractMessage
create_smart_contract_to_proto p = record {
  owner_address = p.owner_address.bytes;
  new_contract = some (record {
    origin_address = p.owner_address.bytes;
    contract_address = [];
    abi = some (to_proto p.abi);
    bytecode = p.bytecode;
    call_value = p.call_value.sun;
    consume_user_resource_percent = p.consume_user_resource_percent;
    name = p.name;
    origin_energy_limit = p.origin_energy_limit;
    code_hash = [];
    trx_hash = [];
    version = pos 0;
  });
  call_token_value = pos 0;
  token_id = pos 0;
}

pub record ClearAbiContractMessage : Type 0 where
  pub owner_address : Bytes
  pub contract_address : Bytes

abbrev pub clear_contract_abi_to_proto : ClearContractAbiContract → ClearAbiContractMessage
clear_contract_abi_to_proto p = record {
  owner_address = p.owner_address.bytes;
  contract_address = p.contract_address.bytes;
}

pub record UpdateSettingContractMessage : Type 0 where
  pub owner_address : Bytes
  pub contract_address : Bytes
  pub consume_user_resource_percent : ℤ

abbrev pub update_setting_to_proto : UpdateSettingContract → UpdateSettingContractMessage
update_setting_to_proto p = record {
  owner_address = p.owner_address.bytes;
  contract_address = p.contract_address.bytes;
  consume_user_resource_percent = p.consume_user_resource_percent;
}

pub record UpdateEnergyLimitContractMessage : Type 0 where
  pub owner_address : Bytes
  pub contract_address : Bytes
  pub origin_energy_limit : ℤ

abbrev pub update_energy_limit_to_proto :
    UpdateEnergyLimitContract → UpdateEnergyLimitContractMessage
update_energy_limit_to_proto p = record {
  owner_address = p.owner_address.bytes;
  contract_address = p.contract_address.bytes;
  origin_energy_limit = p.origin_energy_limit;
}
