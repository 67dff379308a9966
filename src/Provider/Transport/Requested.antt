-- ===== src/Provider/Transport/Requested.antt =====
-- Whatever a node answers, a transaction that is built carries what was asked for.
use tronz.Prelude.{◌≡◌, Bool, true, false, Option, none, some, Result, ok, ◌>>=◌, bind_ok_then}
use tronz.RpcTypes.Kind
use tronz.RpcTypes.Contract.{
  ContractType, freeze_balance_v1, unfreeze_balance_v1, freeze_balance_v2, unfreeze_balance_v2,
  delegate_resource, un_delegate_resource, withdraw_expire_unfreeze, cancel_all_unfreeze_v2,
  withdraw_balance, transfer, create_account, update_account, set_account_id,
  account_permission_update, vote_witness, create_witness, update_witness, update_brokerage,
  proposal_create, proposal_approve, proposal_delete, asset_issue, transfer_asset,
  participate_asset_issue, unfreeze_asset, update_asset, exchange_create, exchange_inject,
  exchange_withdraw, exchange_transaction, market_sell_asset, market_cancel_order,
  trigger_smart_contract, create_smart_contract, clear_contract_abi, update_setting,
  update_energy_limit,
}
use tronz.RpcTypes.Transaction.{Proto, RawTransaction}
use tronz.Provider.Error.{TransportErrorKind}
use tronz.RpcTypes.Messages.Staking.{
  freeze_balance_v1_to_proto, unfreeze_balance_v1_to_proto, freeze_balance_v2_to_proto,
  unfreeze_balance_v2_to_proto, delegate_resource_to_proto, un_delegate_resource_to_proto,
  withdraw_expire_unfreeze_to_proto, cancel_all_unfreeze_v2_to_proto, withdraw_balance_to_proto,
}
use tronz.RpcTypes.Messages.Accounts.{
  transfer_to_proto, create_account_to_proto, update_account_to_proto,
  account_permission_update_to_proto, vote_witness_to_proto, create_witness_to_proto,
  update_witness_to_proto, update_brokerage_to_proto, proposal_create_to_proto,
  proposal_approve_to_proto, proposal_delete_to_proto,
}
use tronz.RpcTypes.Messages.Tokens.{
  asset_issue_to_proto, transfer_asset_to_proto, participate_asset_issue_to_proto,
  unfreeze_asset_to_proto, update_asset_to_proto, exchange_create_to_proto,
  exchange_inject_to_proto, exchange_withdraw_to_proto, exchange_transaction_to_proto,
  market_sell_asset_to_proto, market_cancel_order_to_proto,
}
use tronz.RpcTypes.Messages.Contracts.{
  trigger_smart_contract_to_proto, create_smart_contract_to_proto, clear_contract_abi_to_proto,
  update_setting_to_proto, update_energy_limit_to_proto,
}
use tronz.Provider.Transport.{
  Message, TransactionExtention, raw_from_extention, raw_from_extention_with,
}
use tronz.Provider.Transport.Service.{Messages, WalletService, allow_derived}
use tronz.Provider.Transport.FullNode
use tronz.Provider.Transport.Dispatch.{build_contract}
use tronz.Provider.Transport.Built.{Carries, RoundTrips, raw_from_extention_with-Carries}

-- The kinds whose transaction the transport compares with the request: all but one.
abbrev pub is_compared : ContractType → Bool
is_compared (set_account_id c) = false
is_compared c = true

-- What a request is compared with: the message that was sent, its codec and kind, and what the node derives.
pub record Order : Type 1 where
  pub Body : Type 0
  pub message : Message Body
  pub sent : Body
  pub kind : Kind.ContractKind
  pub derived : Body → Body

abbrev as_order : {B : Type 0} → Message B → B → Kind.ContractKind → (B → B) → Order
as_order {B} m sent kind derived = record {
  Body = B;
  message = m;
  sent = sent;
  kind = kind;
  derived = derived;
}

abbrev pub order : Messages → ContractType → Option Order
order m (freeze_balance_v1 c) = some (
    as_order m.freeze_balance_v1 (freeze_balance_v1_to_proto c) Kind.freeze_balance_v1
      (λ built. built))
order m (unfreeze_balance_v1 c) = some (
    as_order m.unfreeze_balance_v1 (unfreeze_balance_v1_to_proto c) Kind.unfreeze_balance_v1
      (λ built. built))
order m (freeze_balance_v2 c) = some (
    as_order m.freeze_balance_v2 (freeze_balance_v2_to_proto c) Kind.freeze_balance_v2
      (λ built. built))
order m (unfreeze_balance_v2 c) = some (
    as_order m.unfreeze_balance_v2 (unfreeze_balance_v2_to_proto c) Kind.unfreeze_balance_v2
      (λ built. built))
order m (delegate_resource c) = some (
    as_order m.delegate_resource (delegate_resource_to_proto c) Kind.delegate_resource
      (λ built. built))
order m (un_delegate_resource c) = some (
    as_order m.un_delegate_resource (un_delegate_resource_to_proto c) Kind.un_delegate_resource
      (λ built. built))
order m (withdraw_expire_unfreeze c) = some (
    as_order m.withdraw_expire_unfreeze (withdraw_expire_unfreeze_to_proto c)
      Kind.withdraw_expire_unfreeze (λ built. built))
order m (cancel_all_unfreeze_v2 c) = some (
    as_order m.cancel_all_unfreeze_v2 (cancel_all_unfreeze_v2_to_proto c)
      Kind.cancel_all_unfreeze_v2 (λ built. built))
order m (withdraw_balance c) = some (
    as_order m.withdraw_balance (withdraw_balance_to_proto c) Kind.withdraw_balance
      (λ built. built))
order m (transfer c) =
    some (as_order m.transfer (transfer_to_proto c) Kind.transfer (λ built. built))
order m (create_account c) =
    some
      (as_order m.create_account (create_account_to_proto c) Kind.create_account (λ built. built))
order m (update_account c) =
    some
      (as_order m.update_account (update_account_to_proto c) Kind.update_account (λ built. built))
order m (set_account_id c) = none
order m (account_permission_update c) = some (
    as_order m.account_permission_update (account_permission_update_to_proto c)
      Kind.account_permission_update (λ built. built))
order m (vote_witness c) =
    some (as_order m.vote_witness (vote_witness_to_proto c) Kind.vote_witness (λ built. built))
order m (create_witness c) =
    some
      (as_order m.create_witness (create_witness_to_proto c) Kind.create_witness (λ built. built))
order m (update_witness c) =
    some
      (as_order m.update_witness (update_witness_to_proto c) Kind.update_witness (λ built. built))
order m (update_brokerage c) = some (
    as_order m.update_brokerage (update_brokerage_to_proto c) Kind.update_brokerage
      (λ built. built))
order m (proposal_create c) =
    some (
      as_order m.proposal_create (proposal_create_to_proto c) Kind.proposal_create (λ built. built))
order m (proposal_approve c) = some (
    as_order m.proposal_approve (proposal_approve_to_proto c) Kind.proposal_approve
      (λ built. built))
order m (proposal_delete c) =
    some (
      as_order m.proposal_delete (proposal_delete_to_proto c) Kind.proposal_delete (λ built. built))
order m (asset_issue c) =
    some (as_order m.asset_issue (asset_issue_to_proto c) Kind.asset_issue (λ built. built))
order m (transfer_asset c) =
    some
      (as_order m.transfer_asset (transfer_asset_to_proto c) Kind.transfer_asset (λ built. built))
order m (participate_asset_issue c) = some (
    as_order m.participate_asset_issue (participate_asset_issue_to_proto c)
      Kind.participate_asset_issue (λ built. built))
order m (unfreeze_asset c) =
    some
      (as_order m.unfreeze_asset (unfreeze_asset_to_proto c) Kind.unfreeze_asset (λ built. built))
order m (update_asset c) =
    some (as_order m.update_asset (update_asset_to_proto c) Kind.update_asset (λ built. built))
order m (exchange_create c) =
    some (
      as_order m.exchange_create (exchange_create_to_proto c) Kind.exchange_create (λ built. built))
order m (exchange_inject c) =
    some (
      as_order m.exchange_inject (exchange_inject_to_proto c) Kind.exchange_inject (λ built. built))
order m (exchange_withdraw c) = some (
    as_order m.exchange_withdraw (exchange_withdraw_to_proto c) Kind.exchange_withdraw
      (λ built. built))
order m (exchange_transaction c) = some (
    as_order m.exchange_transaction (exchange_transaction_to_proto c) Kind.exchange_transaction
      (λ built. built))
order m (market_sell_asset c) = some (
    as_order m.market_sell_asset (market_sell_asset_to_proto c) Kind.market_sell_asset
      (λ built. built))
order m (market_cancel_order c) = some (
    as_order m.market_cancel_order (market_cancel_order_to_proto c) Kind.market_cancel_order
      (λ built. built))
order m (trigger_smart_contract c) = some (
    as_order m.trigger_smart_contract (trigger_smart_contract_to_proto c)
      Kind.trigger_smart_contract (λ built. built))
order m (create_smart_contract c) = some (
    as_order m.create_smart_contract (create_smart_contract_to_proto c) Kind.create_smart_contract
      allow_derived)
order m (clear_contract_abi c) = some (
    as_order m.clear_contract_abi (clear_contract_abi_to_proto c) Kind.clear_contract_abi
      (λ built. built))
order m (update_setting c) =
    some
      (as_order m.update_setting (update_setting_to_proto c) Kind.update_setting (λ built. built))
order m (update_energy_limit c) = some (
    as_order m.update_energy_limit (update_energy_limit_to_proto c) Kind.update_energy_limit
      (λ built. built))

-- The transaction carries the one contract that was requested, as its message.
abbrev pub Fulfils : Proto → Option Order → RawTransaction → Type 0
Fulfils p none raw = ⊥
Fulfils p (some o) raw = Carries p o.message o.sent o.kind o.derived raw

abbrev pub Requested : Proto → Messages → ContractType → RawTransaction → Type 0
Requested p m c raw = Fulfils p (order m c) raw

module _ (p : Proto) (m : Messages) where
  module _ (node : WalletService) (law : RoundTrips p) where
    answered :
        {M : Type 0} (m' : Message M) (asked : Result TransportErrorKind TransactionExtention)
        (sent : M) (kind : Kind.ContractKind) (allow : M → M) (raw : RawTransaction)
        → (asked >>= λ ext. raw_from_extention_with p m' ext sent kind allow) ≡ ok raw
        → Carries p m' sent kind allow raw
    answered m' asked sent kind allow raw h =
        bind_ok_then asked _ h
          λ ext given h1. raw_from_extention_with-Carries p law m' ext sent kind allow raw h1

    -- A transaction that the transport answers carries exactly the contract that was requested: its
    -- kind, its owner and every field, as they were put into the message, whatever the node built. Of a
    -- deployed contract the address, the two hashes and the version are the node's. An account id is not
    -- compared, and excluded. What prost wrote is never read back as another.
    pub build_contract-Requested :
        (c : ContractType) (raw : RawTransaction)
        → is_compared c ≡ true
        → build_contract p m node c ≡ ok raw
        → Requested p m c raw
    unfolding build_contract raw_from_extention FullNode.freeze_balance_v1
        FullNode.unfreeze_balance_v1 FullNode.freeze_balance_v2 FullNode.unfreeze_balance_v2
        FullNode.delegate_resource FullNode.undelegate_resource FullNode.withdraw_expire_unfreeze
        FullNode.cancel_all_unfreeze_v2 FullNode.withdraw_balance FullNode.transfer_trx
        FullNode.create_account FullNode.update_account FullNode.set_account_id
        FullNode.account_permission_update FullNode.vote_witness_account FullNode.create_witness
        FullNode.update_witness FullNode.update_brokerage FullNode.proposal_create
        FullNode.proposal_approve FullNode.proposal_delete FullNode.create_asset_issue
        FullNode.transfer_asset FullNode.participate_asset_issue FullNode.unfreeze_asset
        FullNode.update_asset FullNode.exchange_create FullNode.exchange_inject
        FullNode.exchange_withdraw FullNode.exchange_transaction FullNode.market_sell_asset
        FullNode.market_cancel_order FullNode.trigger_smart_contract FullNode.create_smart_contract
        FullNode.clear_contract_abi FullNode.update_setting FullNode.update_energy_limit
    build_contract-Requested (freeze_balance_v1 c) raw compared h =
        answered m.freeze_balance_v1 (node.freeze_balance2 (freeze_balance_v1_to_proto c))
          (freeze_balance_v1_to_proto c) Kind.freeze_balance_v1 (λ built. built) raw h
    build_contract-Requested (unfreeze_balance_v1 c) raw compared h =
        answered m.unfreeze_balance_v1 (node.unfreeze_balance2 (unfreeze_balance_v1_to_proto c))
          (unfreeze_balance_v1_to_proto c) Kind.unfreeze_balance_v1 (λ built. built) raw h
    build_contract-Requested (freeze_balance_v2 c) raw compared h =
        answered m.freeze_balance_v2 (node.freeze_balance_v2 (freeze_balance_v2_to_proto c))
          (freeze_balance_v2_to_proto c) Kind.freeze_balance_v2 (λ built. built) raw h
    build_contract-Requested (unfreeze_balance_v2 c) raw compared h =
        answered m.unfreeze_balance_v2 (node.unfreeze_balance_v2 (unfreeze_balance_v2_to_proto c))
          (unfreeze_balance_v2_to_proto c) Kind.unfreeze_balance_v2 (λ built. built) raw h
    build_contract-Requested (delegate_resource c) raw compared h =
        answered m.delegate_resource (node.delegate_resource (delegate_resource_to_proto c))
          (delegate_resource_to_proto c) Kind.delegate_resource (λ built. built) raw h
    build_contract-Requested (un_delegate_resource c) raw compared h =
        answered m.un_delegate_resource
          (node.un_delegate_resource (un_delegate_resource_to_proto c))
          (un_delegate_resource_to_proto c) Kind.un_delegate_resource (λ built. built) raw h
    build_contract-Requested (withdraw_expire_unfreeze c) raw compared h =
        answered m.withdraw_expire_unfreeze
          (node.withdraw_expire_unfreeze (withdraw_expire_unfreeze_to_proto c))
          (withdraw_expire_unfreeze_to_proto c) Kind.withdraw_expire_unfreeze (λ built. built) raw h
    build_contract-Requested (cancel_all_unfreeze_v2 c) raw compared h =
        answered m.cancel_all_unfreeze_v2
          (node.cancel_all_unfreeze_v2 (cancel_all_unfreeze_v2_to_proto c))
          (cancel_all_unfreeze_v2_to_proto c) Kind.cancel_all_unfreeze_v2 (λ built. built) raw h
    build_contract-Requested (withdraw_balance c) raw compared h =
        answered m.withdraw_balance (node.withdraw_balance2 (withdraw_balance_to_proto c))
          (withdraw_balance_to_proto c) Kind.withdraw_balance (λ built. built) raw h
    build_contract-Requested (transfer c) raw compared h =
        answered m.transfer (node.create_transaction2 (transfer_to_proto c)) (transfer_to_proto c)
          Kind.transfer (λ built. built) raw h
    build_contract-Requested (create_account c) raw compared h =
        answered m.create_account (node.create_account2 (create_account_to_proto c))
          (create_account_to_proto c) Kind.create_account (λ built. built) raw h
    build_contract-Requested (update_account c) raw compared h =
        answered m.update_account (node.update_account2 (update_account_to_proto c))
          (update_account_to_proto c) Kind.update_account (λ built. built) raw h
    build_contract-Requested (set_account_id c) raw compared h = cc
    build_contract-Requested (account_permission_update c) raw compared h =
        answered m.account_permission_update
          (node.account_permission_update (account_permission_update_to_proto c))
          (account_permission_update_to_proto c) Kind.account_permission_update (λ built. built) raw
          h
    build_contract-Requested (vote_witness c) raw compared h =
        answered m.vote_witness (node.vote_witness_account2 (vote_witness_to_proto c))
          (vote_witness_to_proto c) Kind.vote_witness (λ built. built) raw h
    build_contract-Requested (create_witness c) raw compared h =
        answered m.create_witness (node.create_witness2 (create_witness_to_proto c))
          (create_witness_to_proto c) Kind.create_witness (λ built. built) raw h
    build_contract-Requested (update_witness c) raw compared h =
        answered m.update_witness (node.update_witness2 (update_witness_to_proto c))
          (update_witness_to_proto c) Kind.update_witness (λ built. built) raw h
    build_contract-Requested (update_brokerage c) raw compared h =
        answered m.update_brokerage (node.update_brokerage (update_brokerage_to_proto c))
          (update_brokerage_to_proto c) Kind.update_brokerage (λ built. built) raw h
    build_contract-Requested (proposal_create c) raw compared h =
        answered m.proposal_create (node.proposal_create (proposal_create_to_proto c))
          (proposal_create_to_proto c) Kind.proposal_create (λ built. built) raw h
    build_contract-Requested (proposal_approve c) raw compared h =
        answered m.proposal_approve (node.proposal_approve (proposal_approve_to_proto c))
          (proposal_approve_to_proto c) Kind.proposal_approve (λ built. built) raw h
    build_contract-Requested (proposal_delete c) raw compared h =
        answered m.proposal_delete (node.proposal_delete (proposal_delete_to_proto c))
          (proposal_delete_to_proto c) Kind.proposal_delete (λ built. built) raw h
    build_contract-Requested (asset_issue c) raw compared h =
        answered m.asset_issue (node.create_asset_issue2 (asset_issue_to_proto c))
          (asset_issue_to_proto c) Kind.asset_issue (λ built. built) raw h
    build_contract-Requested (transfer_asset c) raw compared h =
        answered m.transfer_asset (node.transfer_asset2 (transfer_asset_to_proto c))
          (transfer_asset_to_proto c) Kind.transfer_asset (λ built. built) raw h
    build_contract-Requested (participate_asset_issue c) raw compared h =
        answered m.participate_asset_issue
          (node.participate_asset_issue2 (participate_asset_issue_to_proto c))
          (participate_asset_issue_to_proto c) Kind.participate_asset_issue (λ built. built) raw h
    build_contract-Requested (unfreeze_asset c) raw compared h =
        answered m.unfreeze_asset (node.unfreeze_asset2 (unfreeze_asset_to_proto c))
          (unfreeze_asset_to_proto c) Kind.unfreeze_asset (λ built. built) raw h
    build_contract-Requested (update_asset c) raw compared h =
        answered m.update_asset (node.update_asset2 (update_asset_to_proto c))
          (update_asset_to_proto c) Kind.update_asset (λ built. built) raw h
    build_contract-Requested (exchange_create c) raw compared h =
        answered m.exchange_create (node.exchange_create (exchange_create_to_proto c))
          (exchange_create_to_proto c) Kind.exchange_create (λ built. built) raw h
    build_contract-Requested (exchange_inject c) raw compared h =
        answered m.exchange_inject (node.exchange_inject (exchange_inject_to_proto c))
          (exchange_inject_to_proto c) Kind.exchange_inject (λ built. built) raw h
    build_contract-Requested (exchange_withdraw c) raw compared h =
        answered m.exchange_withdraw (node.exchange_withdraw (exchange_withdraw_to_proto c))
          (exchange_withdraw_to_proto c) Kind.exchange_withdraw (λ built. built) raw h
    build_contract-Requested (exchange_transaction c) raw compared h =
        answered m.exchange_transaction
          (node.exchange_transaction (exchange_transaction_to_proto c))
          (exchange_transaction_to_proto c) Kind.exchange_transaction (λ built. built) raw h
    build_contract-Requested (market_sell_asset c) raw compared h =
        answered m.market_sell_asset (node.market_sell_asset (market_sell_asset_to_proto c))
          (market_sell_asset_to_proto c) Kind.market_sell_asset (λ built. built) raw h
    build_contract-Requested (market_cancel_order c) raw compared h =
        answered m.market_cancel_order (node.market_cancel_order (market_cancel_order_to_proto c))
          (market_cancel_order_to_proto c) Kind.market_cancel_order (λ built. built) raw h
    build_contract-Requested (trigger_smart_contract c) raw compared h =
        answered m.trigger_smart_contract
          (node.trigger_contract (trigger_smart_contract_to_proto c))
          (trigger_smart_contract_to_proto c) Kind.trigger_smart_contract (λ built. built) raw h
    build_contract-Requested (create_smart_contract c) raw compared h =
        answered m.create_smart_contract (node.deploy_contract (create_smart_contract_to_proto c))
          (create_smart_contract_to_proto c) Kind.create_smart_contract allow_derived raw h
    build_contract-Requested (clear_contract_abi c) raw compared h =
        answered m.clear_contract_abi (node.clear_contract_abi (clear_contract_abi_to_proto c))
          (clear_contract_abi_to_proto c) Kind.clear_contract_abi (λ built. built) raw h
    build_contract-Requested (update_setting c) raw compared h =
        answered m.update_setting (node.update_setting (update_setting_to_proto c))
          (update_setting_to_proto c) Kind.update_setting (λ built. built) raw h
    build_contract-Requested (update_energy_limit c) raw compared h =
        answered m.update_energy_limit (node.update_energy_limit (update_energy_limit_to_proto c))
          (update_energy_limit_to_proto c) Kind.update_energy_limit (λ built. built) raw h
