-- ===== src/RpcTypes/Queries.antt =====
-- crates/rpc-types/src/codec/mod.rs: the answers to queries. The lossy reading of text is a parameter, and a hash
-- map the list of its entries.
use tronz.Prelude.{
  Bool, Option, none, some, List, [], ◌∷◌, Bytes, Result, ok, err, ◌>>=◌, ◌==◌, if◌then◌else◌,
}
use tronz.Prelude.Int.{ℤ, pos, negsuc}
use tronz.Primitives.Address.{Address, from_slice}
use tronz.Primitives.Amount.{Trx}
use tronz.RpcTypes.Wire.{ResponseError, node_error}
use tronz.RpcTypes.Block.{is_empty}
use tronz.RpcTypes.Permissions.{map_option}
use tronz.RpcTypes.Messages.Accounts.{PermissionMessage}
use tronz.RpcTypes.Messages.Tokens.{AssetIssueContractMessage}
use tronz.RpcTypes.Answers.{addr, opt_addr, ok_or_none, filter_map, addresses_from_proto}
use tronz.RpcTypes.Receipts.{from_sun_unchecked}

-- `proto::Return`, and what a read-only call reads of `proto::TransactionExtention`.
pub record CallReturn : Type 0 where
  pub succeeded : Bool
  pub message : Bytes

pub record CallAnswer : Type 0 where
  pub constant_result : List Bytes
  pub returned : Option CallReturn
  pub energy_used : ℤ

pub record ConstantCallResult : Type 0 where
  pub output : Bytes
  pub energy_used : ℤ
  pub revert_reason : Option Bytes

abbrev pub first_or_empty : List Bytes → Bytes
first_or_empty [] = []
first_or_empty (b ∷ bs) = b

pub record WitnessMessage : Type 0 where
  pub address : Bytes
  pub vote_count : ℤ
  pub url : Bytes
  pub total_produced : ℤ
  pub total_missed : ℤ
  pub is_jobs : Bool

pub record WitnessInfo : Type 0 where
  pub address : Address
  pub vote_count : ℤ
  pub url : Bytes
  pub total_produced : ℤ
  pub total_missed : ℤ
  pub is_active : Bool

pub witness_from_proto : WitnessMessage → Option WitnessInfo
witness_from_proto w =
    map_option
      (λ a. record {
        address = a;
        vote_count = w.vote_count;
        url = w.url;
        total_produced = w.total_produced;
        total_missed = w.total_missed;
        is_active = w.is_jobs;
      })
      (opt_addr w.address)

pub record DelegatedResourceMessage : Type 0 where
  pub delegator : Bytes
  pub delegatee : Bytes
  pub frozen_balance_for_bandwidth : ℤ
  pub frozen_balance_for_energy : ℤ
  pub expire_time_for_bandwidth : ℤ
  pub expire_time_for_energy : ℤ

pub record DelegatedResource : Type 0 where
  pub delegator : Address
  pub delegatee : Address
  pub bandwidth_amount : Trx
  pub energy_amount : Trx
  pub bandwidth_expire_time_ms : ℤ
  pub energy_expire_time_ms : ℤ

pub delegated_resource_from_proto :
    DelegatedResourceMessage → Result ResponseError DelegatedResource
delegated_resource_from_proto d = do
  delegator ← addr d.delegator
  delegatee ← addr d.delegatee
  ok (record {
    delegator = delegator;
    delegatee = delegatee;
    bandwidth_amount = from_sun_unchecked d.frozen_balance_for_bandwidth;
    energy_amount = from_sun_unchecked d.frozen_balance_for_energy;
    bandwidth_expire_time_ms = d.expire_time_for_bandwidth;
    energy_expire_time_ms = d.expire_time_for_energy;
  })

pub record DelegatedResourceIndexMessage : Type 0 where
  pub account : Bytes
  pub from_accounts : List Bytes
  pub to_accounts : List Bytes

pub record DelegatedResourceIndex : Type 0 where
  pub account : Address
  pub from_accounts : List Address
  pub to_accounts : List Address

pub delegated_resource_index_from_proto :
    DelegatedResourceIndexMessage → Result ResponseError DelegatedResourceIndex
delegated_resource_index_from_proto i = addr i.account >>= λ account. ok (record {
  account = account;
  from_accounts = filter_map (λ b. ok_or_none (addr b)) i.from_accounts;
  to_accounts = filter_map (λ b. ok_or_none (addr b)) i.to_accounts;
})

pub data ProposalState : Type 0 where
  pending disapproved approved canceled : ProposalState
  unknown_state : ℤ → ProposalState

abbrev pub proposal_state : ℤ → ProposalState
proposal_state (negsuc n) = unknown_state (negsuc n)
proposal_state (pos n) =
    if n == 0
    then pending
    else if n == 1
    then disapproved
    else if n == 2
    then approved
    else if n == 3
    then canceled
    else unknown_state (pos n)

pub record ProposalMessage : Type 0 where
  pub proposal_id : ℤ
  pub proposer_address : Bytes
  pub parameters : List (ℤ × ℤ)
  pub expiration_time : ℤ
  pub create_time : ℤ
  pub approvals : List Bytes
  pub state : ℤ

pub record ProposalInfo : Type 0 where
  pub proposal_id : ℤ
  pub proposer_address : Option Address
  pub parameters : List (ℤ × ℤ)
  pub expiration_time : ℤ
  pub create_time : ℤ
  pub approvals : List Address
  pub state : ProposalState

pub proposal_from_proto : ProposalMessage → ProposalInfo
proposal_from_proto p = record {
  proposal_id = p.proposal_id;
  proposer_address =
      if is_empty p.proposer_address then none else ok_or_none (from_slice p.proposer_address);
  parameters = p.parameters;
  expiration_time = p.expiration_time;
  create_time = p.create_time;
  approvals = filter_map (λ b. ok_or_none (from_slice b)) p.approvals;
  state = proposal_state p.state;
}

pub record SignWeightMessage : Type 0 where
  pub permission : Option PermissionMessage
  pub approved_list : List Bytes
  pub current_weight : ℤ
  pub outcome : Option Bytes

pub record SignWeight : Type 0 where
  pub approved_list : List Address
  pub current_weight : ℤ
  pub required_weight : ℤ
  pub outcome : Bytes

abbrev pub threshold_of : Option PermissionMessage → ℤ
threshold_of none = pos 0
threshold_of (some p) = p.threshold

abbrev pub or_empty : Option Bytes → Bytes
or_empty none = []
or_empty (some b) = b

pub sign_weight_from_proto : SignWeightMessage → Result ResponseError SignWeight
sign_weight_from_proto w = addresses_from_proto w.approved_list >>= λ approved. ok (record {
  approved_list = approved;
  current_weight = w.current_weight;
  required_weight = threshold_of w.permission;
  outcome = or_empty w.outcome;
})

module _ (lossy : Bytes → Bytes) where
  abbrev pub reverted_with : Bytes → Option CallReturn → Result ResponseError (Option Bytes)
  reverted_with output none = ok none
  reverted_with output (some r) =
      if r.succeeded
      then ok none
      else if is_empty output
      then err (node_error (lossy r.message))
      else ok (some (lossy r.message))

  pub constant_result_from_extention : CallAnswer → Result ResponseError ConstantCallResult
  constant_result_from_extention ext =
      reverted_with (first_or_empty ext.constant_result) ext.returned >>= λ reason. ok (record {
        output = first_or_empty ext.constant_result;
        energy_used = ext.energy_used;
        revert_reason = reason;
      })

  pub record AssetInfo : Type 0 where
    pub id : Bytes
    pub name : Bytes
    pub abbr : Bytes
    pub decimals : ℤ
    pub owner : Address
    pub total_supply : ℤ
    pub url : Bytes

  pub asset_info_from_proto : AssetIssueContractMessage → Result ResponseError (Option AssetInfo)
  asset_info_from_proto a =
      if is_empty a.id
      then ok none
      else (addr a.owner_address >>= λ owner. ok (
          some (record {
            id = a.id;
            name = lossy a.name;
            abbr = lossy a.abbr;
            decimals = a.precision;
            owner = owner;
            total_supply = a.total_supply;
            url = lossy a.url;
          })))
