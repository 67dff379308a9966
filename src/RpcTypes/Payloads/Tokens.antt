-- ===== src/RpcTypes/Payloads/Tokens.antt =====
-- crates/rpc-types/src/types/contract.rs: the payloads of the contracts for TRC-10 tokens, exchanges and the market.
use tronz.Prelude.{List, Bytes}
use tronz.Prelude.Int.{ℤ}
use tronz.Primitives.Address.{Address}

pub record FrozenSupply : Type 0 where
  pub frozen_amount : ℤ
  pub frozen_days : ℤ

pub record AssetIssueContract : Type 0 where
  pub owner_address : Address
  pub name : Bytes
  pub abbr : Bytes
  pub description : Bytes
  pub url : Bytes
  pub total_supply : ℤ
  pub precision : ℤ
  pub trx_num : ℤ
  pub num : ℤ
  pub start_time : ℤ
  pub end_time : ℤ
  pub free_asset_net_limit : ℤ
  pub public_free_asset_net_limit : ℤ
  pub frozen_supply : List FrozenSupply

pub record TransferAssetContract : Type 0 where
  pub owner_address : Address
  pub to_address : Address
  pub token_id : Bytes
  pub amount : ℤ

pub record ParticipateAssetIssueContract : Type 0 where
  pub owner_address : Address
  pub to_address : Address
  pub token_id : Bytes
  pub amount : ℤ

pub record UnfreezeAssetContract : Type 0 where
  pub owner_address : Address

pub record UpdateAssetContract : Type 0 where
  pub owner_address : Address
  pub description : Bytes
  pub url : Bytes
  pub new_limit : ℤ
  pub new_public_limit : ℤ

pub record ExchangeCreateContract : Type 0 where
  pub owner_address : Address
  pub first_token_id : Bytes
  pub first_token_balance : ℤ
  pub second_token_id : Bytes
  pub second_token_balance : ℤ

pub record ExchangeInjectContract : Type 0 where
  pub owner_address : Address
  pub exchange_id : ℤ
  pub token_id : Bytes
  pub quant : ℤ

pub record ExchangeWithdrawContract : Type 0 where
  pub owner_address : Address
  pub exchange_id : ℤ
  pub token_id : Bytes
  pub quant : ℤ

pub record ExchangeTransactionContract : Type 0 where
  pub owner_address : Address
  pub exchange_id : ℤ
  pub token_id : Bytes
  pub quant : ℤ
  pub expected : ℤ

pub record MarketSellAssetContract : Type 0 where
  pub owner_address : Address
  pub sell_token_id : Bytes
  pub sell_token_quantity : ℤ
  pub buy_token_id : Bytes
  pub buy_token_quantity : ℤ

pub record MarketCancelOrderContract : Type 0 where
  pub owner_address : Address
  pub order_id : Bytes
