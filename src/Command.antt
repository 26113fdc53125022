-- ===== src/Command.antt =====
-- command.rs and event.rs: what goes into the engine and what comes out of it.
use cex_matching_engine.Prelude.{ℕ, Bool, List}
use cex_matching_engine.Market.{AccountId, Currency, Pair}
use cex_matching_engine.Reject.{Result}
use cex_matching_engine.Book.Types.{Side, OrderType, OrderStatus, OrderRequest, Trade}

pub record CancelRequest : Type 0 where
  pub order_id : ℕ

pub record DepositRequest : Type 0 where
  pub amount : ℕ
  pub currency : Currency

pub record WithdrawRequest : Type 0 where
  pub amount : ℕ
  pub currency : Currency

pub data Command : Type 0 where
  place : OrderRequest → Command
  cancel : CancelRequest → Command
  deposit : DepositRequest → Command
  withdraw : WithdrawRequest → Command
  list_pair : Pair → Command
  delist_pair : Pair → Command

pub record PlaceOrderResponse : Type 0 where
  pub order_id : ℕ
  pub filled_qty : ℕ
  pub total_cost : ℕ

pub data CommandResponse : Type 0 where
  place : Result PlaceOrderResponse → CommandResponse
  cancel : Bool → CommandResponse
  deposit : Result ℕ → CommandResponse
  withdraw : Result (Unit {0}) → CommandResponse
  list_pair : Result Bool → CommandResponse
  delist_pair : Bool → CommandResponse
  duplicate : CommandResponse

pub record BalanceChanged : Type 0 where
  pub account_id : AccountId
  pub currency : Currency
  pub available : ℕ
  pub reserved : ℕ

pub record OrderAccepted : Type 0 where
  pub order_id : ℕ
  pub account_id : AccountId
  pub pair : Pair
  pub side : Side
  pub order_type : OrderType
  pub price : ℕ
  pub size : ℕ

pub record OrderUpdated : Type 0 where
  pub order_id : ℕ
  pub account_id : AccountId
  pub pair : Pair
  pub filled_qty : ℕ
  pub remaining_qty : ℕ
  pub status : OrderStatus

pub record BookDelta : Type 0 where
  pub pair : Pair
  pub side : Side
  pub price : ℕ
  pub qty : ℕ

pub data Event : Type 0 where
  trade : Trade → Event
  balance_changed : BalanceChanged → Event
  order_accepted : OrderAccepted → Event
  order_cancelled : ℕ → Event
  order_updated : OrderUpdated → Event
  book_delta : BookDelta → Event

pub record EventBatch : Type 0 where
  pub seq : ℕ
  pub events : List Event
