-- ===== src/RpcTypes/Messages/Tokens.antt =====
-- The generated messages for TRC-10 tokens, exchanges and the market, and what a request puts into them:
-- crates/rpc-types/src/codec/mod.rs.
use tronz.Prelude.{List, [], Bytes, map}
use tronz.Prelude.Int.{ℤ, pos}
use tronz.RpcTypes.Payloads.Tokens.{
  FrozenSupply, AssetIssueContract, TransferAssetContract, ParticipateAssetIssueContract,
  UnfreezeAssetContract, UpdateAssetContract, ExchangeCreateContract, ExchangeInjectContract,
  ExchangeWithdrawContract, ExchangeTransactionContract, MarketSellAssetContract,
  MarketCancelOrderContract,
}

pub record FrozenSupplyMessage : Type 0 where
  pub frozen_amount : ℤ
  pub frozen_days : ℤ

abbrev pub frozen_supply_to_proto : FrozenSupply → FrozenSupplyMessage
frozen_supply_to_proto f = record { frozen_amount = f.frozen_amount; frozen_days = f.frozen_days }

pub record AssetIssueContractMessage : Type 0 where
  pub id : Bytes
  pub owner_address : Bytes
  pub name : Bytes
  pub abbr : Bytes
  pub total_supply : ℤ
  pub frozen_supply : List FrozenSupplyMessage
  pub trx_num : ℤ
  pub precision : ℤ
  pub num : ℤ
  pub start_time : ℤ
  pub end_time : ℤ
  pub order : ℤ
  pub vote_score : ℤ
  pub description : Bytes
  pub url : Bytes
  pub free_asset_net_limit : ℤ
  pub public_free_asset_net_limit : ℤ
  pub public_free_asset_net_usage : ℤ
  pub public_latest_free_net_time : ℤ

abbrev pub asset_issue_to_proto : AssetIssueContract → AssetIssueContractMessage
asset_issue_to_proto p = record {
  id = [];
  owner_address = p.owner_address.bytes;
  name = p.name;
  abbr = p.abbr;
  total_supply = p.total_supply;
  frozen_supply = map frozen_supply_to_proto p.frozen_supply;
  trx_num = p.trx_num;
  precision = p.precision;
  num = p.num;
  start_time = p.start_time;
  end_time = p.end_time;
  order = pos 0;
  vote_score = pos 0;
  description = p.description;
  url = p.url;
  free_asset_net_limit = p.free_asset_net_limit;
  public_free_asset_net_limit = p.public_free_asset_net_limit;
  public_free_asset_net_usage = pos 0;
  public_latest_free_net_time = pos 0;
}

pub record TransferAssetContractMessage : Type 0 where
  pub asset_name : Bytes
  pub owner_address : Bytes
  pub to_address : Bytes
  pub amount : ℤ

abbrev pub transfer_asset_to_proto : TransferAssetContract → TransferAssetContractMessage
transfer_asset_to_proto p = record {
  asset_name = p.token_id;
  owner_address = p.owner_address.bytes;
  to_address = p.to_address.bytes;
  amount = p.amount;
}

pub record ParticipateAssetIssueContractMessage : Type 0 where
  pub owner_address : Bytes
  pub to_address : Bytes
  pub asset_name : Bytes
  pub amount : ℤ

abbrev pub participate_asset_issue_to_proto :
    ParticipateAssetIssueContract → ParticipateAssetIssueContractMessage
participate_asset_issue_to_proto p = record {
  owner_address = p.owner_address.bytes;
  to_address = p.to_address.bytes;
  asset_name = p.token_id;
  amount = p.amount;
}

pub record UnfreezeAssetContractMessage : Type 0 where
  pub owner_address : Bytes

abbrev pub unfreeze_asset_to_proto : UnfreezeAssetContract → UnfreezeAssetContractMessage
unfreeze_asset_to_proto p = record { owner_address = p.owner_address.bytes }

pub record UpdateAssetContractMessage : Type 0 where
  pub owner_address : Bytes
  pub description : Bytes
  pub url : Bytes
  pub new_limit : ℤ
  pub new_public_limit : ℤ

abbrev pub update_asset_to_proto : UpdateAssetContract → UpdateAssetContractMessage
update_asset_to_proto p = record {
  owner_address = p.owner_address.bytes;
  description = p.description;
  url = p.url;
  new_limit = p.new_limit;
  new_public_limit = p.new_public_limit;
}

pub record ExchangeCreateContractMessage : Type 0 where
  pub owner_address : Bytes
  pub first_token_id : Bytes
  pub first_token_balance : ℤ
  pub second_token_id : Bytes
  pub second_token_balance : ℤ

abbrev pub exchange_create_to_proto : ExchangeCreateContract → ExchangeCreateContractMessage
exchange_create_to_proto p = record {
  owner_address = p.owner_address.bytes;
  first_token_id = p.first_token_id;
  first_token_balance = p.first_token_balance;
  second_token_id = p.second_token_id;
  second_token_balance = p.second_token_balance;
}

pub record ExchangeInjectContractMessage : Type 0 where
  pub owner_address : Bytes
  pub exchange_id : ℤ
  pub token_id : Bytes
  pub quant : ℤ

abbrev pub exchange_inject_to_proto : ExchangeInjectContract → ExchangeInjectContractMessage
exchange_inject_to_proto p = record {
  owner_address = p.owner_address.bytes;
  exchange_id = p.exchange_id;
  token_id = p.token_id;
  quant = p.quant;
}

pub record ExchangeWithdrawContractMessage : Type 0 where
  pub owner_address : Bytes
  pub exchange_id : ℤ
  pub token_id : Bytes
  pub quant : ℤ

abbrev pub exchange_withdraw_to_proto : ExchangeWithdrawContract → ExchangeWithdrawContractMessage
exchange_withdraw_to_proto p = record {
  owner_address = p.owner_address.bytes;
  exchange_id = p.exchange_id;
  token_id = p.token_id;
  quant = p.quant;
}

pub record ExchangeTransactionContractMessage : Type 0 where
  pub owner_address : Bytes
  pub exchange_id : ℤ
  pub token_id : Bytes
  pub quant : ℤ
  pub expected : ℤ

abbrev pub exchange_transaction_to_proto :
    ExchangeTransactionContract → ExchangeTransactionContractMessage
exchange_transaction_to_proto p = record {
  owner_address = p.owner_address.bytes;
  exchange_id = p.exchange_id;
  token_id = p.token_id;
  quant = p.quant;
  expected = p.expected;
}

pub record MarketSellAssetContractMessage : Type 0 where
  pub owner_address : Bytes
  pub sell_token_id : Bytes
  pub sell_token_quantity : ℤ
  pub buy_token_id : Bytes
  pub buy_token_quantity : ℤ

abbrev pub market_sell_asset_to_proto : MarketSellAssetContract → MarketSellAssetContractMessage
market_sell_asset_to_proto p = record {
  owner_address = p.owner_address.bytes;
  sell_token_id = p.sell_token_id;
  sell_token_quantity = p.sell_token_quantity;
  buy_token_id = p.buy_token_id;
  buy_token_quantity = p.buy_token_quantity;
}

pub record MarketCancelOrderContractMessage : Type 0 where
  pub owner_address : Bytes
  pub order_id : Bytes

abbrev pub market_cancel_order_to_proto :
    MarketCancelOrderContract → MarketCancelOrderContractMessage
market_cancel_order_to_proto p = record {
  owner_address = p.owner_address.bytes;
  order_id = p.order_id;
}
