-- ===== src/RpcTypes/Messages/Abi.antt =====
-- crates/rpc-types/src/codec/abi.rs: the ABI of a contract as a message, and back.
pub mod RoundTrip
mod Tests
use tronz.Prelude.{Bool, List, [], ◌∷◌, Bytes, map}
use tronz.Prelude.Int.{ℤ}
use tronz.Abi.Entries.{
  TronAbi, TronAbiEntry, TronAbiParam, entry_type_from_i32, entry_type_as_i32, mutability_from_i32,
  mutability_as_i32,
}

-- `proto::smart_contract::Abi`, its entries and their parameters.
pub record ParamMessage : Type 0 where
  pub indexed : Bool
  pub name : Bytes
  pub ty : Bytes

pub record EntryMessage : Type 0 where
  pub anonymous : Bool
  pub constant : Bool
  pub name : Bytes
  pub inputs : List ParamMessage
  pub outputs : List ParamMessage
  pub entry_type : ℤ
  pub accepts_trx : Bool
  pub state_mutability : ℤ

pub record AbiMessage : Type 0 where
  pub entrys : List EntryMessage

abbrev pub param_from_proto : ParamMessage → TronAbiParam
param_from_proto p = record { indexed = p.indexed; name = p.name; ty = p.ty }

abbrev pub param_to_proto : TronAbiParam → ParamMessage
param_to_proto p = record { indexed = p.indexed; name = p.name; ty = p.ty }

abbrev pub entry_from_proto : EntryMessage → TronAbiEntry
entry_from_proto e = record {
  entry_type = entry_type_from_i32 e.entry_type;
  name = e.name;
  inputs = map param_from_proto e.inputs;
  outputs = map param_from_proto e.outputs;
  anonymous = e.anonymous;
  constant = e.constant;
  accepts_trx = e.accepts_trx;
  state_mutability = mutability_from_i32 e.state_mutability;
}

abbrev pub entry_to_proto : TronAbiEntry → EntryMessage
entry_to_proto e = record {
  anonymous = e.anonymous;
  constant = e.constant;
  name = e.name;
  inputs = map param_to_proto e.inputs;
  outputs = map param_to_proto e.outputs;
  entry_type = entry_type_as_i32 e.entry_type;
  accepts_trx = e.accepts_trx;
  state_mutability = mutability_as_i32 e.state_mutability;
}

unfoldable pub from_proto : AbiMessage → TronAbi
from_proto abi = record { entries = map entry_from_proto abi.entrys }

unfoldable pub to_proto : TronAbi → AbiMessage
to_proto abi = record { entrys = map entry_to_proto abi.entries }
