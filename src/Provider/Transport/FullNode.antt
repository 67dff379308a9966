-- ===== src/Provider/Transport/FullNode.antt =====
-- crates/provider/src/transport/grpc/fullnode.rs: the calls that build a transaction.
use tronz.Prelude.{Result, map_err, ◌>>=◌}
use tronz.RpcTypes.Kind
use tronz.RpcTypes.Transaction.{Proto, RawTransaction}
use tronz.Provider.Error.{TransportErrorKind, of_response}
use tronz.Provider.Transport.{raw_from_extention, raw_from_extention_with, raw_from_plain}
use tronz.RpcTypes.Payloads.Staking.{
  FreezeBalanceV1Contract, UnfreezeBalanceV1Contract, FreezeBalanceV2Contract,
  UnfreezeBalanceV2Contract, DelegateResourceContract, UnDelegateResourceContract,
  WithdrawExpireUnfreezeContract, CancelAllUnfreezeV2Contract, WithdrawBalanceContract,
}
use tronz.RpcTypes.Messages.Staking.{
  freeze_balance_v1_to_proto, unfreeze_balance_v1_to_proto, freeze_balance_v2_to_proto,
  unfreeze_balance_v2_to_proto, delegate_resource_to_proto, un_delegate_resource_to_proto,
  withdraw_expire_unfreeze_to_proto, cancel_all_unfreeze_v2_to_proto, withdraw_balance_to_proto,
}
use tronz.RpcTypes.Payloads.Accounts.{
  TransferContract, CreateAccountContract, UpdateAccountContract, SetAccountIdContract,
  AccountPermissionUpdateContract, VoteWitnessContract, CreateWitnessContract,
  UpdateWitnessContract, UpdateBrokerageContract, ProposalCreateContract, ProposalApproveContract,
  ProposalDeleteContract,
}
use tronz.RpcTypes.Messages.Accounts.{
  transfer_to_proto, create_account_to_proto, update_account_to_proto, set_account_id_to_proto,
  account_permission_update_to_proto, vote_witness_to_proto, create_witness_to_proto,
  update_witness_to_proto, update_brokerage_to_proto, proposal_create_to_proto,
  proposal_approve_to_proto, proposal_delete_to_proto,
}
use tronz.RpcTypes.Payloads.Tokens.{
  AssetIssueContract, TransferAssetContract, ParticipateAssetIssueContract, UnfreezeAssetContract,
  UpdateAssetContract, ExchangeCreateContract, ExchangeInjectContract, ExchangeWithdrawContract,
  ExchangeTransactionContract, MarketSellAssetContract, MarketCancelOrderContract,
}
use tronz.RpcTypes.Messages.Tokens.{
  asset_issue_to_proto, transfer_asset_to_proto, participate_asset_issue_to_proto,
  unfreeze_asset_to_proto, update_asset_to_proto, exchange_create_to_proto,
  exchange_inject_to_proto, exchange_withdraw_to_proto, exchange_transaction_to_proto,
  market_sell_asset_to_proto, market_cancel_order_to_proto,
}
use tronz.RpcTypes.Payloads.Contracts.{
  TriggerSmartContract, CreateSmartContract, ClearContractAbiContract, UpdateSettingContract,
  UpdateEnergyLimitContract,
}
use tronz.RpcTypes.Messages.Contracts.{
  trigger_smart_contract_to_proto, create_smart_contract_to_proto, clear_contract_abi_to_proto,
  update_setting_to_proto, update_energy_limit_to_proto,
}
use tronz.Provider.Transport.Service.{Messages, WalletService, allow_derived}

module _ (p : Proto) (m : Messages) (node : WalletService) where
  unfoldable pub freeze_balance_v1 :
      FreezeBalanceV1Contract → Result TransportErrorKind RawTransaction
  freeze_balance_v1 c =
      let sent = freeze_balance_v1_to_proto c in
      node.freeze_balance2 sent >>= λ ext.
      raw_from_extention p m.freeze_balance_v1 ext sent Kind.freeze_balance_v1

  unfoldable pub unfreeze_balance_v1 :
      UnfreezeBalanceV1Contract → Result TransportErrorKind RawTransaction
  unfreeze_balance_v1 c =
      let sent = unfreeze_balance_v1_to_proto c in
      node.unfreeze_balance2 sent >>= λ ext.
      raw_from_extention p m.unfreeze_balance_v1 ext sent Kind.unfreeze_balance_v1

  unfoldable pub freeze_balance_v2 :
      FreezeBalanceV2Contract → Result TransportErrorKind RawTransaction
  freeze_balance_v2 c =
      let sent = freeze_balance_v2_to_proto c in
      node.freeze_balance_v2 sent >>= λ ext.
      raw_from_extention p m.freeze_balance_v2 ext sent Kind.freeze_balance_v2

  unfoldable pub unfreeze_balance_v2 :
      UnfreezeBalanceV2Contract → Result TransportErrorKind RawTransaction
  unfreeze_balance_v2 c =
      let sent = unfreeze_balance_v2_to_proto c in
      node.unfreeze_balance_v2 sent >>= λ ext.
      raw_from_extention p m.unfreeze_balance_v2 ext sent Kind.unfreeze_balance_v2

  unfoldable pub delegate_resource :
      DelegateResourceContract → Result TransportErrorKind RawTransaction
  delegate_resource c =
      let sent = delegate_resource_to_proto c in
      node.delegate_resource sent >>= λ ext.
      raw_from_extention p m.delegate_resource ext sent Kind.delegate_resource

  unfoldable pub undelegate_resource :
      UnDelegateResourceContract → Result TransportErrorKind RawTransaction
  undelegate_resource c =
      let sent = un_delegate_resource_to_proto c in
      node.un_delegate_resource sent >>= λ ext.
      raw_from_extention p m.un_delegate_resource ext sent Kind.un_delegate_resource

  unfoldable pub withdraw_expire_unfreeze :
      WithdrawExpireUnfreezeContract → Result TransportErrorKind RawTransaction
  withdraw_expire_unfreeze c =
      let sent = withdraw_expire_unfreeze_to_proto c in
      node.withdraw_expire_unfreeze sent >>= λ ext.
      raw_from_extention p m.withdraw_expire_unfreeze ext sent Kind.withdraw_expire_unfreeze

  unfoldable pub cancel_all_unfreeze_v2 :
      CancelAllUnfreezeV2Contract → Result TransportErrorKind RawTransaction
  cancel_all_unfreeze_v2 c =
      let sent = cancel_all_unfreeze_v2_to_proto c in
      node.cancel_all_unfreeze_v2 sent >>= λ ext.
      raw_from_extention p m.cancel_all_unfreeze_v2 ext sent Kind.cancel_all_unfreeze_v2

  unfoldable pub withdraw_balance :
      WithdrawBalanceContract → Result TransportErrorKind RawTransaction
  withdraw_balance c =
      let sent = withdraw_balance_to_proto c in
      node.withdraw_balance2 sent >>= λ ext.
      raw_from_extention p m.withdraw_balance ext sent Kind.withdraw_balance

  unfoldable pub transfer_trx : TransferContract → Result TransportErrorKind RawTransaction
  transfer_trx c =
      let sent = transfer_to_proto c in
      node.create_transaction2 sent >>= λ ext.
      raw_from_extention p m.transfer ext sent Kind.transfer

  unfoldable pub create_account : CreateAccountContract → Result TransportErrorKind RawTransaction
  create_account c =
      let sent = create_account_to_proto c in
      node.create_account2 sent >>= λ ext.
      raw_from_extention p m.create_account ext sent Kind.create_account

  unfoldable pub update_account : UpdateAccountContract → Result TransportErrorKind RawTransaction
  update_account c =
      let sent = update_account_to_proto c in
      node.update_account2 sent >>= λ ext.
      raw_from_extention p m.update_account ext sent Kind.update_account

  unfoldable pub set_account_id : SetAccountIdContract → Result TransportErrorKind RawTransaction
  set_account_id c = node.set_account_id (set_account_id_to_proto c) >>= λ tx.
      map_err of_response (raw_from_plain p tx)

  unfoldable pub account_permission_update :
      AccountPermissionUpdateContract → Result TransportErrorKind RawTransaction
  account_permission_update c =
      let sent = account_permission_update_to_proto c in
      node.account_permission_update sent >>= λ ext.
      raw_from_extention p m.account_permission_update ext sent Kind.account_permission_update

  unfoldable pub vote_witness_account :
      VoteWitnessContract → Result TransportErrorKind RawTransaction
  vote_witness_account c =
      let sent = vote_witness_to_proto c in
      node.vote_witness_account2 sent >>= λ ext.
      raw_from_extention p m.vote_witness ext sent Kind.vote_witness

  unfoldable pub create_witness : CreateWitnessContract → Result TransportErrorKind RawTransaction
  create_witness c =
      let sent = create_witness_to_proto c in
      node.create_witness2 sent >>= λ ext.
      raw_from_extention p m.create_witness ext sent Kind.create_witness

  unfoldable pub update_witness : UpdateWitnessContract → Result TransportErrorKind RawTransaction
  update_witness c =
      let sent = update_witness_to_proto c in
      node.update_witness2 sent >>= λ ext.
      raw_from_extention p m.update_witness ext sent Kind.update_witness

  unfoldable pub update_brokerage :
      UpdateBrokerageContract → Result TransportErrorKind RawTransaction
  update_brokerage c =
      let sent = update_brokerage_to_proto c in
      node.update_brokerage sent >>= λ ext.
      raw_from_extention p m.update_brokerage ext sent Kind.update_brokerage

  unfoldable pub proposal_create : ProposalCreateContract → Result TransportErrorKind RawTransaction
  proposal_create c =
      let sent = proposal_create_to_proto c in
      node.proposal_create sent >>= λ ext.
      raw_from_extention p m.proposal_create ext sent Kind.proposal_create

  unfoldable pub proposal_approve :
      ProposalApproveContract → Result TransportErrorKind RawTransaction
  proposal_approve c =
      let sent = proposal_approve_to_proto c in
      node.proposal_approve sent >>= λ ext.
      raw_from_extention p m.proposal_approve ext sent Kind.proposal_approve

  unfoldable pub proposal_delete : ProposalDeleteContract → Result TransportErrorKind RawTransaction
  proposal_delete c =
      let sent = proposal_delete_to_proto c in
      node.proposal_delete sent >>= λ ext.
      raw_from_extention p m.proposal_delete ext sent Kind.proposal_delete

  unfoldable pub create_asset_issue : AssetIssueContract → Result TransportErrorKind RawTransaction
  create_asset_issue c =
      let sent = asset_issue_to_proto c in
      node.create_asset_issue2 sent >>= λ ext.
      raw_from_extention p m.asset_issue ext sent Kind.asset_issue

  unfoldable pub transfer_asset : TransferAssetContract → Result TransportErrorKind RawTransaction
  transfer_asset c =
      let sent = transfer_asset_to_proto c in
      node.transfer_asset2 sent >>= λ ext.
      raw_from_extention p m.transfer_asset ext sent Kind.transfer_asset

  unfoldable pub participate_asset_issue :
      ParticipateAssetIssueContract → Result TransportErrorKind RawTransaction
  participate_asset_issue c =
      let sent = participate_asset_issue_to_proto c in
      node.participate_asset_issue2 sent >>= λ ext.
      raw_from_extention p m.participate_asset_issue ext sent Kind.participate_asset_issue

  unfoldable pub unfreeze_asset : UnfreezeAssetContract → Result TransportErrorKind RawTransaction
  unfreeze_asset c =
      let sent = unfreeze_asset_to_proto c in
      node.unfreeze_asset2 sent >>= λ ext.
      raw_from_extention p m.unfreeze_asset ext sent Kind.unfreeze_asset

  unfoldable pub update_asset : UpdateAssetContract → Result TransportErrorKind RawTransaction
  update_asset c =
      let sent = update_asset_to_proto c in
      node.update_asset2 sent >>= λ ext.
      raw_from_extention p m.update_asset ext sent Kind.update_asset

  unfoldable pub exchange_create : ExchangeCreateContract → Result TransportErrorKind RawTransaction
  exchange_create c =
      let sent = exchange_create_to_proto c in
      node.exchange_create sent >>= λ ext.
      raw_from_extention p m.exchange_create ext sent Kind.exchange_create

  unfoldable pub exchange_inject : ExchangeInjectContract → Result TransportErrorKind RawTransaction
  exchange_inject c =
      let sent = exchange_inject_to_proto c in
      node.exchange_inject sent >>= λ ext.
      raw_from_extention p m.exchange_inject ext sent Kind.exchange_inject

  unfoldable pub exchange_withdraw :
      ExchangeWithdrawContract → Result TransportErrorKind RawTransaction
  exchange_withdraw c =
      let sent = exchange_withdraw_to_proto c in
      node.exchange_withdraw sent >>= λ ext.
      raw_from_extention p m.exchange_withdraw ext sent Kind.exchange_withdraw

  unfoldable pub exchange_transaction :
      ExchangeTransactionContract → Result TransportErrorKind RawTransaction
  exchange_transaction c =
      let sent = exchange_transaction_to_proto c in
      node.exchange_transaction sent >>= λ ext.
      raw_from_extention p m.exchange_transaction ext sent Kind.exchange_transaction

  unfoldable pub market_sell_asset :
      MarketSellAssetContract → Result TransportErrorKind RawTransaction
  market_sell_asset c =
      let sent = market_sell_asset_to_proto c in
      node.market_sell_asset sent >>= λ ext.
      raw_from_extention p m.market_sell_asset ext sent Kind.market_sell_asset

  unfoldable pub market_cancel_order :
      MarketCancelOrderContract → Result TransportErrorKind RawTransaction
  market_cancel_order c =
      let sent = market_cancel_order_to_proto c in
      node.market_cancel_order sent >>= λ ext.
      raw_from_extention p m.market_cancel_order ext sent Kind.market_cancel_order

  unfoldable pub trigger_smart_contract :
      TriggerSmartContract → Result TransportErrorKind RawTransaction
  trigger_smart_contract c =
      let sent = trigger_smart_contract_to_proto c in
      node.trigger_contract sent >>= λ ext.
      raw_from_extention p m.trigger_smart_contract ext sent Kind.trigger_smart_contract

  unfoldable pub create_smart_contract :
      CreateSmartContract → Result TransportErrorKind RawTransaction
  create_smart_contract c =
      let sent = create_smart_contract_to_proto c in
      node.deploy_contract sent >>= λ ext.
      raw_from_extention_with p m.create_smart_contract ext sent Kind.create_smart_contract
        allow_derived

  unfoldable pub clear_contract_abi :
      ClearContractAbiContract → Result TransportErrorKind RawTransaction
  clear_contract_abi c =
      let sent = clear_contract_abi_to_proto c in
      node.clear_contract_abi sent >>= λ ext.
      raw_from_extention p m.clear_contract_abi ext sent Kind.clear_contract_abi

  unfoldable pub update_setting : UpdateSettingContract → Result TransportErrorKind RawTransaction
  update_setting c =
      let sent = update_setting_to_proto c in
      node.update_setting sent >>= λ ext.
      raw_from_extention p m.update_setting ext sent Kind.update_setting

  unfoldable pub update_energy_limit :
      UpdateEnergyLimitContract → Result TransportErrorKind RawTransaction
  update_energy_limit c =
      let sent = update_energy_limit_to_proto c in
      node.update_energy_limit sent >>= λ ext.
      raw_from_extention p m.update_energy_limit ext sent Kind.update_energy_limit
