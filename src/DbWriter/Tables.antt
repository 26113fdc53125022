-- ===== src/DbWriter/Tables.antt =====
-- bin/db_writer.rs, `apply_event`: what the statements for one event do to the tables. A table is a
-- map from its primary key; columns that hold the time of a write are left out.
use cex_matching_engine.Prelude.{
  ◌≡◌, ◌↔◌, ◌>>=◌, ℕ, ◌+◌, Option, none, some, List, [], ◌∷◌, if◌then◌else◌, pair_eq, nat_eq, Key,
  nat_eqb, nat_eqb_iff,
}
use cex_matching_engine.Prelude.Int.{
  ℤ, ltb_ℤ, ◌+ℤ◌, quot, is_i64, as_i64, int_eq, times, int_eqb, int_eqb_iff,
}
use cex_matching_engine.Prelude.HashMap
use cex_matching_engine.Prelude.HashMap.{HashMap, or_else}
use cex_matching_engine.Prelude.Text.{Text, codes, text_eq, text_eqb, text_eqb_iff}
use cex_matching_engine.Market.{AccountId}
use cex_matching_engine.Market.Symbol.{show_pair, show_currency}
use cex_matching_engine.Book.Types.{Side, bid, ask, OrderType, market, limit, Trade, show_status}
use cex_matching_engine.Command.{
  Event, BalanceChanged, OrderAccepted, OrderUpdated, trade, balance_changed, order_accepted,
  order_cancelled, order_updated, book_delta, EventBatch,
}
use cex_matching_engine.Candle.{interval_widths}
use cex_matching_engine.DbWriter.{entry_millis, Bool, nat_eqb, false, true, event_id, arith}

pub record TradeRow : Type 0 where
  pub pair : Text
  pub price : ℕ
  pub qty : ℕ
  pub maker_id : ℕ
  pub taker_id : ℕ
  pub taker_side : Text
  pub maker_account : AccountId
  pub taker_account : AccountId
  -- in milliseconds
  pub created_at : ℤ

-- `(pair, interval_seconds, bucket)`
abbrev pub CandleKey : Type 0
CandleKey = Text × ℕ × ℤ

abbrev pub candle_eqb : CandleKey → CandleKey → Bool
candle_eqb (p, w, b) (q, v, c) =
    if text_eqb p q then (if nat_eqb w v then int_eqb b c else false) else false

pub candle_eqb_iff : (j k : CandleKey) → (candle_eqb j k ≡ true) ↔ (j ≡ k)
candle_eqb_iff (p, w, b) (q, v, c) =
    ground (arith, text_eqb_iff p q, nat_eqb_iff w v, int_eqb_iff b c)

instance abbrev pub candle_eq : Key CandleKey
candle_eq = record { same = candle_eqb; agrees = candle_eqb_iff }

pub record CandleRow : Type 0 where
  pub open_price : ℤ
  pub high : ℤ
  pub low : ℤ
  pub close : ℤ
  pub volume : ℤ

pub record BalanceRow : Type 0 where
  pub available : ℕ
  pub reserved : ℕ

pub record OrderRow : Type 0 where
  pub account_id : AccountId
  pub pair : Text
  pub side : Text
  pub order_type : Text
  pub price : ℕ
  pub size : ℕ
  pub filled_qty : ℕ
  pub status : Text

pub record Database : Type 0 where
  pub trades : HashMap Text TradeRow
  pub candles : HashMap CandleKey CandleRow
  pub balances : HashMap (AccountId × Text) BalanceRow
  pub orders : HashMap ℕ OrderRow

unfoldable pub show_side : Side → Text
show_side bid = codes "Bid"
show_side ask = codes "Ask"

unfoldable pub show_order_type : OrderType → Text
show_order_type limit = codes "Limit"
show_order_type market = codes "Market"

unfoldable pub trade_row : ℤ → Trade → TradeRow
unfolding show_side
trade_row millis t = record {
  pair = show_pair t.pair;
  price = t.price;
  qty = t.qty;
  maker_id = t.maker_id;
  taker_id = t.taker_id;
  taker_side = show_side t.taker_side;
  maker_account = t.maker_account;
  taker_account = t.taker_account;
  created_at = millis;
}

-- GREATEST and LEAST
abbrev pub greatest : ℤ → ℤ → ℤ
greatest a b = if ltb_ℤ a b then b else a

abbrev pub least : ℤ → ℤ → ℤ
least a b = if ltb_ℤ b a then b else a

-- `(secs / w) * w`
unfoldable pub bucket_of : ℤ → ℕ → ℤ
unfolding quot times
bucket_of secs w = times (quot secs w) w

abbrev pub new_candle : ℤ → ℤ → CandleRow
new_candle price qty = record {
  open_price = price;
  high = price;
  low = price;
  close = price;
  volume = qty;
}

-- The row after ON CONFLICT DO UPDATE; `none` where the volume leaves the range of a BIGINT.
unfoldable pub merged : ℤ → ℤ → CandleRow → Option CandleRow
merged price qty c =
    if is_i64 (c.volume +ℤ qty)
    then some (record c {
      high = greatest c.high price;
      low = least c.low price;
      close = price;
      volume = c.volume +ℤ qty;
    })
    else none

unfoldable pub candle_after : ℤ → ℤ → Option CandleRow → Option CandleRow
unfolding merged
candle_after price qty none = some (new_candle price qty)
candle_after price qty (some c) = merged price qty c

unfoldable pub upsert_candle :
    CandleKey → ℤ → ℤ → HashMap CandleKey CandleRow → Option (HashMap CandleKey CandleRow)
upsert_candle k price qty candles = do
  row ← candle_after price qty (HashMap.get k candles)
  some (HashMap.insert k row candles)

-- The rows of `unnest`, in turn.
unfoldable pub upsert_widths :
    Text → ℤ → ℤ → ℤ → List ℕ → HashMap CandleKey CandleRow → Option (HashMap CandleKey CandleRow)
upsert_widths pair secs price qty [] candles = some candles
upsert_widths pair secs price qty (w ∷ widths) candles =
    elim (upsert_candle (pair, w, bucket_of secs w) price qty candles) [
      | none ↦ none
      | some candles' ↦ upsert_widths pair secs price qty widths candles'
    ]

-- `entry_millis(id)`, or else the clock.
unfoldable pub millis_of : Text → ℤ → ℤ
unfolding entry_millis
millis_of id now = or_else now (entry_millis id)

-- RETURNING says whether the row is new, and the candles follow only then.
unfoldable pub apply_trade : Text → ℤ → Trade → Database → Option Database
apply_trade id now t db = elim (HashMap.get id db.trades) [
  | some _ ↦ some db
  | none ↦
      elim (upsert_widths (show_pair t.pair) (quot (millis_of id now) 1000) (as_i64 t.price)
        (as_i64 t.qty) interval_widths db.candles) [
          | none ↦ none
          | some candles ↦ some (record db {
            trades = HashMap.insert id (trade_row (millis_of id now) t) db.trades;
            candles = candles;
          })
        ]
]

unfoldable pub set_row :
    BalanceChanged → HashMap (AccountId × Text) BalanceRow → HashMap (AccountId × Text) BalanceRow
set_row b =
    HashMap.insert (b.account_id, show_currency b.currency)
      (record { available = b.available; reserved = b.reserved })

unfoldable pub open_row : OrderAccepted → OrderRow
unfolding show_side show_order_type
open_row o = record {
  account_id = o.account_id;
  pair = show_pair o.pair;
  side = show_side o.side;
  order_type = show_order_type o.order_type;
  price = o.price;
  size = o.size;
  filled_qty = 0;
  status = codes "open";
}

-- ON CONFLICT DO NOTHING
unfoldable pub insert_order : OrderAccepted → HashMap ℕ OrderRow → HashMap ℕ OrderRow
insert_order o orders = elim (HashMap.get o.order_id orders) [
  | none ↦ HashMap.insert o.order_id (open_row o) orders
  | some _ ↦ orders
]

-- UPDATE … WHERE order_id = …
unfoldable pub update_order : ℕ → (OrderRow → OrderRow) → HashMap ℕ OrderRow → HashMap ℕ OrderRow
update_order id change orders = elim (HashMap.get id orders) [
  | none ↦ orders
  | some row ↦ HashMap.insert id (change row) orders
]

abbrev pub cancelled_row : OrderRow → OrderRow
cancelled_row row = record row { status = codes "cancelled" }

abbrev pub updated_row : OrderUpdated → OrderRow → OrderRow
updated_row u row = record row { filled_qty = u.filled_qty; status = show_status u.status }

-- `apply_event`. `none` is an error of the database.
unfoldable pub apply_event : Text → ℤ → Event → Database → Option Database
apply_event id now (trade t) db = apply_trade id now t db
apply_event id now (balance_changed b) db = some (record db { balances = set_row b db.balances })
apply_event id now (order_accepted o) db = some (record db { orders = insert_order o db.orders })
apply_event id now (order_cancelled order_id) db =
    some (record db { orders = update_order order_id cancelled_row db.orders })
apply_event id now (order_updated u) db =
    some (record db { orders = update_order u.order_id (updated_row u) db.orders })
apply_event id now (book_delta d) db = some db

-- The ids and the events of a batch: `enumerate`.
unfoldable pub enumerated : ℕ → ℕ → List Event → List (Text × Event)
enumerated seq i [] = []
enumerated seq i (event ∷ events) = (event_id seq i, event) ∷ enumerated seq (i + 1) events

-- The loop over the events. What the clock says when an event is written is given by its id.
unfoldable pub apply_all : (Text → ℤ) → List (Text × Event) → Database → Option Database
apply_all clock [] db = some db
apply_all clock ((id, event) ∷ events) db = elim (apply_event id (clock id) event db) [
  | none ↦ none
  | some db' ↦ apply_all clock events db'
]

unfoldable pub apply_batch : (Text → ℤ) → EventBatch → Database → Option Database
apply_batch clock batch db = apply_all clock (enumerated batch.seq 0 batch.events) db
