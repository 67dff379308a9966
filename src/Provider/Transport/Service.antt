-- ===== src/Provider/Transport/Service.antt =====
-- crates/provider/src/transport/grpc/fullnode.rs: the generated messages with their codecs, and the node with
-- its answers, after the retries.
use tronz.Prelude.{none, some, [], Result}
use tronz.Prelude.Int.{pos}
use tronz.RpcTypes.Transaction.{ProtoTransaction}
use tronz.Provider.Error.{TransportErrorKind}
use tronz.Provider.Transport.{Message, TransactionExtention}
use tronz.RpcTypes.Messages.Staking.{
  FreezeBalanceContractMessage, UnfreezeBalanceContractMessage, FreezeBalanceV2ContractMessage,
  UnfreezeBalanceV2ContractMessage, DelegateResourceContractMessage,
  UnDelegateResourceContractMessage, WithdrawExpireUnfreezeContractMessage,
  CancelAllUnfreezeV2ContractMessage, WithdrawBalanceContractMessage,
}
use tronz.RpcTypes.Messages.Accounts.{
  TransferContractMessage, AccountCreateContractMessage, AccountUpdateContractMessage,
  SetAccountIdContractMessage, AccountPermissionUpdateContractMessage, VoteWitnessContractMessage,
  WitnessCreateContractMessage, WitnessUpdateContractMessage, UpdateBrokerageContractMessage,
  ProposalCreateContractMessage, ProposalApproveContractMessage, ProposalDeleteContractMessage,
}
use tronz.RpcTypes.Messages.Tokens.{
  AssetIssueContractMessage, TransferAssetContractMessage, ParticipateAssetIssueContractMessage,
  UnfreezeAssetContractMessage, UpdateAssetContractMessage, ExchangeCreateContractMessage,
  ExchangeInjectContractMessage, ExchangeWithdrawContractMessage,
  ExchangeTransactionContractMessage, MarketSellAssetContractMessage,
  MarketCancelOrderContractMessage,
}
use tronz.RpcTypes.Messages.Contracts.{
  TriggerSmartContractMessage, CreateSmartContractMessage, ClearAbiContractMessage,
  UpdateSettingContractMessage, UpdateEnergyLimitContractMessage, SmartContractMessage,
}

-- prost, for each message.
pub record Messages : Type 0 where
  pub freeze_balance_v1 : Message FreezeBalanceContractMessage
  pub unfreeze_balance_v1 : Message UnfreezeBalanceContractMessage
  pub freeze_balance_v2 : Message FreezeBalanceV2ContractMessage
  pub unfreeze_balance_v2 : Message UnfreezeBalanceV2ContractMessage
  pub delegate_resource : Message DelegateResourceContractMessage
  pub un_delegate_resource : Message UnDelegateResourceContractMessage
  pub withdraw_expire_unfreeze : Message WithdrawExpireUnfreezeContractMessage
  pub cancel_all_unfreeze_v2 : Message CancelAllUnfreezeV2ContractMessage
  pub withdraw_balance : Message WithdrawBalanceContractMessage
  pub transfer : Message TransferContractMessage
  pub create_account : Message AccountCreateContractMessage
  pub update_account : Message AccountUpdateContractMessage
  pub account_permission_update : Message AccountPermissionUpdateContractMessage
  pub vote_witness : Message VoteWitnessContractMessage
  pub create_witness : Message WitnessCreateContractMessage
  pub update_witness : Message WitnessUpdateContractMessage
  pub update_brokerage : Message UpdateBrokerageContractMessage
  pub proposal_create : Message ProposalCreateContractMessage
  pub proposal_approve : Message ProposalApproveContractMessage
  pub proposal_delete : Message ProposalDeleteContractMessage
  pub asset_issue : Message AssetIssueContractMessage
  pub transfer_asset : Message TransferAssetContractMessage
  pub participate_asset_issue : Message ParticipateAssetIssueContractMessage
  pub unfreeze_asset : Message UnfreezeAssetContractMessage
  pub update_asset : Message UpdateAssetContractMessage
  pub exchange_create : Message ExchangeCreateContractMessage
  pub exchange_inject : Message ExchangeInjectContractMessage
  pub exchange_withdraw : Message ExchangeWithdrawContractMessage
  pub exchange_transaction : Message ExchangeTransactionContractMessage
  pub market_sell_asset : Message MarketSellAssetContractMessage
  pub market_cancel_order : Message MarketCancelOrderContractMessage
  pub trigger_smart_contract : Message TriggerSmartContractMessage
  pub create_smart_contract : Message CreateSmartContractMessage
  pub clear_contract_abi : Message ClearAbiContractMessage
  pub update_setting : Message UpdateSettingContractMessage
  pub update_energy_limit : Message UpdateEnergyLimitContractMessage

-- `protocol.Wallet`, as far as it builds transactions.
pub record WalletService : Type 0 where
  pub freeze_balance2 :
      FreezeBalanceContractMessage → Result TransportErrorKind TransactionExtention
  pub unfreeze_balance2 :
      UnfreezeBalanceContractMessage → Result TransportErrorKind TransactionExtention
  pub freeze_balance_v2 :
      FreezeBalanceV2ContractMessage → Result TransportErrorKind TransactionExtention
  pub unfreeze_balance_v2 :
      UnfreezeBalanceV2ContractMessage → Result TransportErrorKind TransactionExtention
  pub delegate_resource :
      DelegateResourceContractMessage → Result TransportErrorKind TransactionExtention
  pub un_delegate_resource :
      UnDelegateResourceContractMessage → Result TransportErrorKind TransactionExtention
  pub withdraw_expire_unfreeze :
      WithdrawExpireUnfreezeContractMessage → Result TransportErrorKind TransactionExtention
  pub cancel_all_unfreeze_v2 :
      CancelAllUnfreezeV2ContractMessage → Result TransportErrorKind TransactionExtention
  pub withdraw_balance2 :
      WithdrawBalanceContractMessage → Result TransportErrorKind TransactionExtention
  pub create_transaction2 : TransferContractMessage → Result TransportErrorKind TransactionExtention
  pub create_account2 :
      AccountCreateContractMessage → Result TransportErrorKind TransactionExtention
  pub update_account2 :
      AccountUpdateContractMessage → Result TransportErrorKind TransactionExtention
  pub set_account_id : SetAccountIdContractMessage → Result TransportErrorKind ProtoTransaction
  pub account_permission_update :
      AccountPermissionUpdateContractMessage → Result TransportErrorKind TransactionExtention
  pub vote_witness_account2 :
      VoteWitnessContractMessage → Result TransportErrorKind TransactionExtention
  pub create_witness2 :
      WitnessCreateContractMessage → Result TransportErrorKind TransactionExtention
  pub update_witness2 :
      WitnessUpdateContractMessage → Result TransportErrorKind TransactionExtention
  pub update_brokerage :
      UpdateBrokerageContractMessage → Result TransportErrorKind TransactionExtention
  pub proposal_create :
      ProposalCreateContractMessage → Result TransportErrorKind TransactionExtention
  pub proposal_approve :
      ProposalApproveContractMessage → Result TransportErrorKind TransactionExtention
  pub proposal_delete :
      ProposalDeleteContractMessage → Result TransportErrorKind TransactionExtention
  pub create_asset_issue2 :
      AssetIssueContractMessage → Result TransportErrorKind TransactionExtention
  pub transfer_asset2 :
      TransferAssetContractMessage → Result TransportErrorKind TransactionExtention
  pub participate_asset_issue2 :
      ParticipateAssetIssueContractMessage → Result TransportErrorKind TransactionExtention
  pub unfreeze_asset2 :
      UnfreezeAssetContractMessage → Result TransportErrorKind TransactionExtention
  pub update_asset2 : UpdateAssetContractMessage → Result TransportErrorKind TransactionExtention
  pub exchange_create :
      ExchangeCreateContractMessage → Result TransportErrorKind TransactionExtention
  pub exchange_inject :
      ExchangeInjectContractMessage → Result TransportErrorKind TransactionExtention
  pub exchange_withdraw :
      ExchangeWithdrawContractMessage → Result TransportErrorKind TransactionExtention
  pub exchange_transaction :
      ExchangeTransactionContractMessage → Result TransportErrorKind TransactionExtention
  pub market_sell_asset :
      MarketSellAssetContractMessage → Result TransportErrorKind TransactionExtention
  pub market_cancel_order :
      MarketCancelOrderContractMessage → Result TransportErrorKind TransactionExtention
  pub trigger_contract :
      TriggerSmartContractMessage → Result TransportErrorKind TransactionExtention
  pub deploy_contract : CreateSmartContractMessage → Result TransportErrorKind TransactionExtention
  pub clear_contract_abi : ClearAbiContractMessage → Result TransportErrorKind TransactionExtention
  pub update_setting : UpdateSettingContractMessage → Result TransportErrorKind TransactionExtention
  pub update_energy_limit :
      UpdateEnergyLimitContractMessage → Result TransportErrorKind TransactionExtention

-- What the node derives in a deployed contract.
abbrev pub without_derived : SmartContractMessage → SmartContractMessage
without_derived c = record c {
  contract_address = [];
  code_hash = [];
  trx_hash = [];
  version = pos 0;
}

abbrev pub allow_derived : CreateSmartContractMessage → CreateSmartContractMessage
allow_derived built = record built {
  new_contract = elim built.new_contract [ none ↦ none | some c ↦ some (without_derived c) ];
}
