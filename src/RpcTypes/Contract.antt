-- ===== src/RpcTypes/Contract.antt =====
-- crates/rpc-types/src/types/contract.rs: `ContractType`, the operation of a request.
use tronz.Prelude.{Bool, true, false}
use tronz.Primitives.Address.{Address}
use tronz.RpcTypes.Payloads.Staking.{
  FreezeBalanceV1Contract, UnfreezeBalanceV1Contract, FreezeBalanceV2Contract,
  UnfreezeBalanceV2Contract, DelegateResourceContract, UnDelegateResourceContract,
  WithdrawExpireUnfreezeContract, CancelAllUnfreezeV2Contract, WithdrawBalanceContract,
}
use tronz.RpcTypes.Payloads.Accounts.{
  TransferContract, CreateAccountContract, UpdateAccountContract, SetAccountIdContract,
  AccountPermissionUpdateContract, VoteWitnessContract, CreateWitnessContract,
  UpdateWitnessContract, UpdateBrokerageContract, ProposalCreateContract, ProposalApproveContract,
  ProposalDeleteContract,
}
use tronz.RpcTypes.Payloads.Tokens.{
  AssetIssueContract, TransferAssetContract, ParticipateAssetIssueContract, UnfreezeAssetContract,
  UpdateAssetContract, ExchangeCreateContract, ExchangeInjectContract, ExchangeWithdrawContract,
  ExchangeTransactionContract, MarketSellAssetContract, MarketCancelOrderContract,
}
use tronz.RpcTypes.Payloads.Contracts.{
  TriggerSmartContract, CreateSmartContract, ClearContractAbiContract, UpdateSettingContract,
  UpdateEnergyLimitContract,
}

pub data ContractType : Type 0 where
  transfer : TransferContract → ContractType
  account_permission_update : AccountPermissionUpdateContract → ContractType
  create_smart_contract : CreateSmartContract → ContractType
  trigger_smart_contract : TriggerSmartContract → ContractType
  freeze_balance_v1 : FreezeBalanceV1Contract → ContractType
  unfreeze_balance_v1 : UnfreezeBalanceV1Contract → ContractType
  freeze_balance_v2 : FreezeBalanceV2Contract → ContractType
  unfreeze_balance_v2 : UnfreezeBalanceV2Contract → ContractType
  delegate_resource : DelegateResourceContract → ContractType
  un_delegate_resource : UnDelegateResourceContract → ContractType
  withdraw_expire_unfreeze : WithdrawExpireUnfreezeContract → ContractType
  cancel_all_unfreeze_v2 : CancelAllUnfreezeV2Contract → ContractType
  withdraw_balance : WithdrawBalanceContract → ContractType
  proposal_create : ProposalCreateContract → ContractType
  proposal_approve : ProposalApproveContract → ContractType
  proposal_delete : ProposalDeleteContract → ContractType
  asset_issue : AssetIssueContract → ContractType
  transfer_asset : TransferAssetContract → ContractType
  participate_asset_issue : ParticipateAssetIssueContract → ContractType
  unfreeze_asset : UnfreezeAssetContract → ContractType
  update_asset : UpdateAssetContract → ContractType
  create_account : CreateAccountContract → ContractType
  vote_witness : VoteWitnessContract → ContractType
  update_account : UpdateAccountContract → ContractType
  set_account_id : SetAccountIdContract → ContractType
  clear_contract_abi : ClearContractAbiContract → ContractType
  update_setting : UpdateSettingContract → ContractType
  update_energy_limit : UpdateEnergyLimitContract → ContractType
  create_witness : CreateWitnessContract → ContractType
  update_witness : UpdateWitnessContract → ContractType
  update_brokerage : UpdateBrokerageContract → ContractType
  exchange_create : ExchangeCreateContract → ContractType
  exchange_inject : ExchangeInjectContract → ContractType
  exchange_withdraw : ExchangeWithdrawContract → ContractType
  exchange_transaction : ExchangeTransactionContract → ContractType
  market_sell_asset : MarketSellAssetContract → ContractType
  market_cancel_order : MarketCancelOrderContract → ContractType

unfoldable pub needs_fee_limit : ContractType → Bool
needs_fee_limit (trigger_smart_contract c) = true
needs_fee_limit (create_smart_contract c) = true
needs_fee_limit _ = false

unfoldable pub owner_address : ContractType → Address
owner_address (transfer c) = c.owner_address
owner_address (trigger_smart_contract c) = c.owner_address
owner_address (freeze_balance_v1 c) = c.owner_address
owner_address (unfreeze_balance_v1 c) = c.owner_address
owner_address (freeze_balance_v2 c) = c.owner_address
owner_address (unfreeze_balance_v2 c) = c.owner_address
owner_address (delegate_resource c) = c.owner_address
owner_address (un_delegate_resource c) = c.owner_address
owner_address (withdraw_expire_unfreeze c) = c.owner_address
owner_address (cancel_all_unfreeze_v2 c) = c.owner_address
owner_address (withdraw_balance c) = c.owner_address
owner_address (account_permission_update c) = c.owner_address
owner_address (create_smart_contract c) = c.owner_address
owner_address (asset_issue c) = c.owner_address
owner_address (transfer_asset c) = c.owner_address
owner_address (participate_asset_issue c) = c.owner_address
owner_address (unfreeze_asset c) = c.owner_address
owner_address (update_asset c) = c.owner_address
owner_address (create_account c) = c.owner_address
owner_address (vote_witness c) = c.owner_address
owner_address (update_account c) = c.owner_address
owner_address (proposal_create c) = c.owner_address
owner_address (proposal_approve c) = c.owner_address
owner_address (proposal_delete c) = c.owner_address
owner_address (create_witness c) = c.owner_address
owner_address (update_witness c) = c.owner_address
owner_address (update_brokerage c) = c.owner_address
owner_address (set_account_id c) = c.owner_address
owner_address (clear_contract_abi c) = c.owner_address
owner_address (update_setting c) = c.owner_address
owner_address (update_energy_limit c) = c.owner_address
owner_address (exchange_create c) = c.owner_address
owner_address (exchange_inject c) = c.owner_address
owner_address (exchange_withdraw c) = c.owner_address
owner_address (exchange_transaction c) = c.owner_address
owner_address (market_sell_asset c) = c.owner_address
owner_address (market_cancel_order c) = c.owner_address
