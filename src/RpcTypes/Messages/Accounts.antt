-- ===== src/RpcTypes/Messages/Accounts.antt =====
-- The generated messages for transfers, accounts, permissions, votes, witnesses and proposals, and what a request puts into them:
-- crates/rpc-types/src/codec/mod.rs.
use tronz.Prelude.{Bool, false, Option, List, [], Bytes, map}
use tronz.Prelude.Int.{ℤ, pos}
use tronz.RpcTypes.Permissions.{Permission, PermissionKey}
use tronz.RpcTypes.Operations.{OperationSet}
use tronz.RpcTypes.Permissions.{map_option}
use tronz.RpcTypes.Payloads.Accounts.{
  SrVote, TransferContract, CreateAccountContract, UpdateAccountContract, SetAccountIdContract,
  AccountPermissionUpdateContract, VoteWitnessContract, CreateWitnessContract,
  UpdateWitnessContract, UpdateBrokerageContract, ProposalCreateContract, ProposalApproveContract,
  ProposalDeleteContract,
}

-- `proto::Key` and `proto::Permission`.
pub record KeyMessage : Type 0 where
  pub address : Bytes
  pub weight : ℤ

pub record PermissionMessage : Type 0 where
  pub permission_type : ℤ
  pub id : ℤ
  pub permission_name : Bytes
  pub threshold : ℤ
  pub parent_id : ℤ
  pub operations : Bytes
  pub keys : List KeyMessage

pub data PermissionType : Type 0 where
  owner_type witness_type active_type : PermissionType

abbrev pub type_as_i32 : PermissionType → ℤ
type_as_i32 owner_type = pos 0
type_as_i32 witness_type = pos 1
type_as_i32 active_type = pos 2

-- Only an active permission lists its operations.
abbrev pub listed_operations : PermissionType → OperationSet → Bytes
listed_operations active_type s = s.bitmap
listed_operations t s = []

abbrev pub key_to_proto : PermissionKey → KeyMessage
key_to_proto k = record { address = k.address.bytes; weight = k.weight }

abbrev pub permission_to_proto : Permission → PermissionType → PermissionMessage
permission_to_proto p t = record {
  permission_type = type_as_i32 t;
  id = p.id;
  permission_name = p.permission_name;
  threshold = p.threshold;
  parent_id = pos 0;
  operations = listed_operations t p.operations;
  keys = map key_to_proto p.keys;
}

pub record VoteMessage : Type 0 where
  pub vote_address : Bytes
  pub vote_count : ℤ

abbrev pub vote_to_proto : SrVote → VoteMessage
vote_to_proto v = record { vote_address = v.vote_address.bytes; vote_count = v.vote_count }

pub record TransferContractMessage : Type 0 where
  pub owner_address : Bytes
  pub to_address : Bytes
  pub amount : ℤ

abbrev pub transfer_to_proto : TransferContract → TransferContractMessage
transfer_to_proto p = record {
  owner_address = p.owner_address.bytes;
  to_address = p.to_address.bytes;
  amount = p.amount.sun;
}

pub record AccountCreateContractMessage : Type 0 where
  pub owner_address : Bytes
  pub account_address : Bytes
  pub account_type : ℤ

abbrev pub create_account_to_proto : CreateAccountContract → AccountCreateContractMessage
create_account_to_proto p = record {
  owner_address = p.owner_address.bytes;
  account_address = p.account_address.bytes;
  account_type = pos 0;
}

pub record AccountUpdateContractMessage : Type 0 where
  pub account_name : Bytes
  pub owner_address : Bytes

abbrev pub update_account_to_proto : UpdateAccountContract → AccountUpdateContractMessage
update_account_to_proto p = record { account_name = p.name; owner_address = p.owner_address.bytes }

pub record SetAccountIdContractMessage : Type 0 where
  pub account_id : Bytes
  pub owner_address : Bytes

abbrev pub set_account_id_to_proto : SetAccountIdContract → SetAccountIdContractMessage
set_account_id_to_proto p = record {
  account_id = p.account_id;
  owner_address = p.owner_address.bytes;
}

pub record AccountPermissionUpdateContractMessage : Type 0 where
  pub owner_address : Bytes
  pub owner : Option PermissionMessage
  pub witness : Option PermissionMessage
  pub actives : List PermissionMessage

abbrev pub account_permission_update_to_proto :
    AccountPermissionUpdateContract → AccountPermissionUpdateContractMessage
account_permission_update_to_proto p = record {
  owner_address = p.owner_address.bytes;
  owner = map_option (λ q. permission_to_proto q owner_type) p.owner;
  witness = map_option (λ q. permission_to_proto q witness_type) p.witness;
  actives = map (λ q. permission_to_proto q active_type) p.actives;
}

pub record VoteWitnessContractMessage : Type 0 where
  pub owner_address : Bytes
  pub votes : List VoteMessage
  pub support : Bool

abbrev pub vote_witness_to_proto : VoteWitnessContract → VoteWitnessContractMessage
vote_witness_to_proto p = record {
  owner_address = p.owner_address.bytes;
  votes = map vote_to_proto p.votes;
  support = false;
}

pub record WitnessCreateContractMessage : Type 0 where
  pub owner_address : Bytes
  pub url : Bytes

abbrev pub create_witness_to_proto : CreateWitnessContract → WitnessCreateContractMessage
create_witness_to_proto p = record { owner_address = p.owner_address.bytes; url = p.url }

pub record WitnessUpdateContractMessage : Type 0 where
  pub owner_address : Bytes
  pub update_url : Bytes

abbrev pub update_witness_to_proto : UpdateWitnessContract → WitnessUpdateContractMessage
update_witness_to_proto p = record {
  owner_address = p.owner_address.bytes;
  update_url = p.update_url;
}

pub record UpdateBrokerageContractMessage : Type 0 where
  pub owner_address : Bytes
  pub brokerage : ℤ

abbrev pub update_brokerage_to_proto : UpdateBrokerageContract → UpdateBrokerageContractMessage
update_brokerage_to_proto p = record {
  owner_address = p.owner_address.bytes;
  brokerage = p.brokerage;
}

pub record ProposalCreateContractMessage : Type 0 where
  pub owner_address : Bytes
  pub parameters : List (ℤ × ℤ)

abbrev pub proposal_create_to_proto : ProposalCreateContract → ProposalCreateContractMessage
proposal_create_to_proto p = record {
  owner_address = p.owner_address.bytes;
  parameters = p.parameters;
}

pub record ProposalApproveContractMessage : Type 0 where
  pub owner_address : Bytes
  pub proposal_id : ℤ
  pub is_add_approval : Bool

abbrev pub proposal_approve_to_proto : ProposalApproveContract → ProposalApproveContractMessage
proposal_approve_to_proto p = record {
  owner_address = p.owner_address.bytes;
  proposal_id = p.proposal_id;
  is_add_approval = p.is_add_approval;
}

pub record ProposalDeleteContractMessage : Type 0 where
  pub owner_address : Bytes
  pub proposal_id : ℤ

abbrev pub proposal_delete_to_proto : ProposalDeleteContract → ProposalDeleteContractMessage
proposal_delete_to_proto p = record {
  owner_address = p.owner_address.bytes;
  proposal_id = p.proposal_id;
}
