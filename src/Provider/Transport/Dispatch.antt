-- ===== src/Provider/Transport/Dispatch.antt =====
-- crates/provider/src/provider/mod.rs, the match of `build_via_transport`: the call for each kind of contract.
use tronz.Prelude.{Result}
use tronz.RpcTypes.Contract.{
  ContractType, freeze_balance_v1, unfreeze_balance_v1, freeze_balance_v2, unfreeze_balance_v2,
  delegate_resource, un_delegate_resource, withdraw_expire_unfreeze, cancel_all_unfreeze_v2,
  withdraw_balance, transfer, create_account, update_account, set_account_id,
  account_permission_update, vote_witness, create_witness, update_witness, update_brokerage,
  proposal_create, proposal_approve, proposal_delete, asset_issue, transfer_asset,
  participate_asset_issue, unfreeze_asset, update_asset, exchange_create, exchange_inject,
  exchange_withdraw, exchange_transaction, market_sell_asset, market_cancel_order,
  trigger_smart_contract, create_smart_contract, clear_contract_abi, update_setting,
  update_energy_limit,
}
use tronz.RpcTypes.Transaction.{Proto, RawTransaction}
use tronz.Provider.Error.{TransportErrorKind}
use tronz.Provider.Transport.Service.{Messages, WalletService}
use tronz.Provider.Transport.FullNode

module _ (p : Proto) (m : Messages) (node : WalletService) where
  unfoldable pub build_contract : ContractType → Result TransportErrorKind RawTransaction
  build_contract (freeze_balance_v1 c) = FullNode.freeze_balance_v1 p m node c
  build_contract (unfreeze_balance_v1 c) = FullNode.unfreeze_balance_v1 p m node c
  build_contract (freeze_balance_v2 c) = FullNode.freeze_balance_v2 p m node c
  build_contract (unfreeze_balance_v2 c) = FullNode.unfreeze_balance_v2 p m node c
  build_contract (delegate_resource c) = FullNode.delegate_resource p m node c
  build_contract (un_delegate_resource c) = FullNode.undelegate_resource p m node c
  build_contract (withdraw_expire_unfreeze c) = FullNode.withdraw_expire_unfreeze p m node c
  build_contract (cancel_all_unfreeze_v2 c) = FullNode.cancel_all_unfreeze_v2 p m node c
  build_contract (withdraw_balance c) = FullNode.withdraw_balance p m node c
  build_contract (transfer c) = FullNode.transfer_trx p m node c
  build_contract (create_account c) = FullNode.create_account p m node c
  build_contract (update_account c) = FullNode.update_account p m node c
  build_contract (set_account_id c) = FullNode.set_account_id p m node c
  build_contract (account_permission_update c) = FullNode.account_permission_update p m node c
  build_contract (vote_witness c) = FullNode.vote_witness_account p m node c
  build_contract (create_witness c) = FullNode.create_witness p m node c
  build_contract (update_witness c) = FullNode.update_witness p m node c
  build_contract (update_brokerage c) = FullNode.update_brokerage p m node c
  build_contract (proposal_create c) = FullNode.proposal_create p m node c
  build_contract (proposal_approve c) = FullNode.proposal_approve p m node c
  build_contract (proposal_delete c) = FullNode.proposal_delete p m node c
  build_contract (asset_issue c) = FullNode.create_asset_issue p m node c
  build_contract (transfer_asset c) = FullNode.transfer_asset p m node c
  build_contract (participate_asset_issue c) = FullNode.participate_asset_issue p m node c
  build_contract (unfreeze_asset c) = FullNode.unfreeze_asset p m node c
  build_contract (update_asset c) = FullNode.update_asset p m node c
  build_contract (exchange_create c) = FullNode.exchange_create p m node c
  build_contract (exchange_inject c) = FullNode.exchange_inject p m node c
  build_contract (exchange_withdraw c) = FullNode.exchange_withdraw p m node c
  build_contract (exchange_transaction c) = FullNode.exchange_transaction p m node c
  build_contract (market_sell_asset c) = FullNode.market_sell_asset p m node c
  build_contract (market_cancel_order c) = FullNode.market_cancel_order p m node c
  build_contract (trigger_smart_contract c) = FullNode.trigger_smart_contract p m node c
  build_contract (create_smart_contract c) = FullNode.create_smart_contract p m node c
  build_contract (clear_contract_abi c) = FullNode.clear_contract_abi p m node c
  build_contract (update_setting c) = FullNode.update_setting p m node c
  build_contract (update_energy_limit c) = FullNode.update_energy_limit p m node c
