-- ===== src/Book/Types.antt =====
-- book.rs: the data of the order book. A `u64` is a natural number; its bound is a part of the
-- invariants.
use cex_matching_engine.Prelude.{ℕ, ◌≡◌, ◌↔◌, Bool, true, false, Option, none, List, [], arith, Key}
use cex_matching_engine.Prelude.HashMap.{HashMap, HashSet}
use cex_matching_engine.Prelude.BTreeMap.{BTreeMap}
use cex_matching_engine.Market.{AccountId, Pair}
use cex_matching_engine.Prelude.Text.{Text, codes}

pub data Side : Type 0 where
  bid ask : Side

abbrev pub side_eqb : Side → Side → Bool
side_eqb bid bid = true
side_eqb ask ask = true
side_eqb _ _ = false

pub side_eqb_iff : (a b : Side) → (side_eqb a b ≡ true) ↔ (a ≡ b)
side_eqb_iff a b = ground arith

instance abbrev pub side_eq : Key Side
side_eq = record { same = side_eqb; agrees = side_eqb_iff }

pub data OrderType : Type 0 where
  market limit : OrderType

abbrev pub order_type_eqb : OrderType → OrderType → Bool
order_type_eqb market market = true
order_type_eqb limit limit = true
order_type_eqb _ _ = false

pub data OrderStatus : Type 0 where
  opened partially_filled filled cancelled : OrderStatus

-- `OrderStatus::fmt`
unfoldable pub show_status : OrderStatus → Text
show_status opened = codes "open"
show_status partially_filled = codes "partially_filled"
show_status filled = codes "filled"
show_status cancelled = codes "cancelled"

pub record Order : Type 0 where
  pub id : ℕ
  pub order_type : OrderType
  pub side : Side
  pub price : ℕ
  pub size : ℕ
  pub remaining_size : ℕ
  pub account_id : AccountId

pub record OrderLocation : Type 0 where
  pub owner : AccountId
  pub side : Side
  pub price : ℕ

pub record OrderRequest : Type 0 where
  pub pair : Pair
  pub order_type : OrderType
  pub side : Side
  pub price : ℕ
  pub size : ℕ

pub record Trade : Type 0 where
  pub pair : Pair
  pub price : ℕ
  pub qty : ℕ
  pub maker_id : ℕ
  pub taker_id : ℕ
  pub taker_side : Side
  pub maker_account : AccountId
  pub taker_account : AccountId

pub record OrderUpdate : Type 0 where
  pub order_id : ℕ
  pub account_id : AccountId
  pub filled_qty : ℕ
  pub remaining_size : ℕ
  pub status : OrderStatus

-- a level, as `(side, price)`
abbrev pub LevelKey : Type 0
LevelKey = Side × ℕ

-- `(side, price, new_qty)`
abbrev pub LevelDelta : Type 0
LevelDelta = Side × ℕ × ℕ

pub record MatchResponse : Type 0 where
  pub order_id : ℕ
  pub trades : List Trade
  pub updates : List OrderUpdate
  pub taker_remaining : ℕ
  pub book_deltas : List LevelDelta

pub record OrderBook : Type 0 where
  pub bids : BTreeMap (List Order)
  pub asks : BTreeMap (List Order)
  pub order_index : HashMap ℕ OrderLocation
  pub dirty_levels : HashSet LevelKey
  pub last_trade_price : Option ℕ

-- `OrderBook::new`
abbrev pub new_book : OrderBook
new_book = record {
  bids = [];
  asks = [];
  order_index = [];
  dirty_levels = [];
  last_trade_price = none;
}
