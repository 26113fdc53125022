-- ===== src/Book/Matching.antt =====
-- book.rs, `OrderBook::add_order`: the taker sweeps the best levels of the other side, and what a
-- limit order has left rests.
use cex_matching_engine.Prelude.{
  ℕ, zero, suc, ◌-◌, min, Bool, ◌&&◌, Option, none, some, List, [], ◌∷◌, ◌++◌, ltb, leb, nat_eqb,
  if◌then◌else◌, length, sub_u64, nat_eq, pair_eq,
}
use cex_matching_engine.Prelude.HashMap
use cex_matching_engine.Prelude.BTreeMap
use cex_matching_engine.Market.{AccountId, Pair}
use cex_matching_engine.Book.Types.{
  Side, bid, ask, market, limit, order_type_eqb, partially_filled, filled, cancelled, Order,
  OrderRequest, OrderStatus, Trade, OrderUpdate, MatchResponse, OrderBook, side_eq,
}
use cex_matching_engine.Book.Levels.{take_dirty_levels, best_level}

-- The variables of the loops: the incoming order, what was recorded so far, and the book.
pub record Run : Type 0 where
  pub order : Order
  pub trades : List Trade
  pub updates : List OrderUpdate
  pub book : OrderBook

unfoldable pub new_order : ℕ → AccountId → OrderRequest → Order
new_order order_id account_id req = record {
  id = order_id;
  order_type = req.order_type;
  side = req.side;
  price = req.price;
  size = req.size;
  remaining_size = req.size;
  account_id = account_id;
}

-- The two orders after a trade. The subtractions stand under the test, so they do not wrap.
unfoldable pub maker_after : Order → Order → Order
maker_after taker maker = record maker {
  remaining_size =
      if leb taker.remaining_size maker.remaining_size
      then maker.remaining_size - taker.remaining_size
      else 0;
}

unfoldable pub taker_after : Order → Order → Order
taker_after taker maker = record taker {
  remaining_size =
      if leb taker.remaining_size maker.remaining_size
      then 0
      else taker.remaining_size - maker.remaining_size;
}

unfoldable pub trade_of : Pair → Order → Order → ℕ → Trade
trade_of pair taker maker qty = record {
  pair = pair;
  price = maker.price;
  qty = qty;
  maker_id = maker.id;
  taker_id = taker.id;
  taker_side = taker.side;
  maker_account = maker.account_id;
  taker_account = taker.account_id;
}

-- The maker's state after its fill.
unfoldable pub maker_update : Order → OrderUpdate
maker_update maker = record {
  order_id = maker.id;
  account_id = maker.account_id;
  filled_qty = sub_u64 maker.size maker.remaining_size;
  remaining_size = maker.remaining_size;
  status = if nat_eqb maker.remaining_size 0 then filled else partially_filled;
}

-- One round of the inner loop against the maker at the front, up to the removal of a filled maker.
unfoldable pub match_front : Pair → Order → Run → Run
match_front pair maker run = record {
  order = taker_after run.order maker;
  trades = run.trades ++ trade_of pair run.order maker qty ∷ [];
  updates = run.updates ++ maker_update (maker_after run.order maker) ∷ [];
  book = record (run.book) {
    last_trade_price = some maker.price;
    dirty_levels = HashMap.with_elem (maker.side, maker.price) run.book.dirty_levels;
  };
}
  where
    qty : ℕ
    qty = min run.order.remaining_size maker.remaining_size

-- `self.order_index.remove(&best_price_order.id)`
unfoldable pub drop_index : ℕ → Run → Run
drop_index id run = record run {
  book = record (run.book) { order_index = HashMap.remove id run.book.order_index };
}

-- The inner loop. It leaves a maker that is not filled at the front; the taker is then filled, so
-- that the loop's test fails.
unfoldable pub match_queue : Pair → List Order → Run → List Order × Run
match_queue pair [] run = ([], run)
match_queue pair (maker ∷ queue) run =
    let maker' = maker_after run.order maker in
    let run' = match_front pair maker run in
    let popped = match_queue pair queue (drop_index maker.id run') in
    if nat_eqb run.order.remaining_size 0
    then (maker ∷ queue, run)
    else if nat_eqb maker'.remaining_size 0
    then popped
    else (maker' ∷ queue, run')

-- The test on which the outer loop breaks off: a limit order does not reach the best price.
unfoldable pub out_of_reach : Order → ℕ → Bool
out_of_reach order price = beyond order.side && order_type_eqb order.order_type limit
  where
    beyond : Side → Bool
    beyond bid = ltb order.price price
    beyond ask = ltb price order.price

-- The level that the next round of the outer loop takes, or `none` where the loop ends.
unfoldable pub next_level : Run → Option (ℕ × List Order)
next_level run = if nat_eqb run.order.remaining_size 0 then none else reached best
  where
    best : Option (ℕ × List Order)
    best = best_level run.order.side run.book

    reached : Option (ℕ × List Order) → Option (ℕ × List Order)
    reached none = none
    reached (some (price, queue)) =
        if out_of_reach run.order price then none else some (price, queue)

-- The queue was changed in place; an empty one is popped.
unfoldable pub put_level : Side → ℕ → List Order → OrderBook → OrderBook
put_level bid price [] book = record book { asks = BTreeMap.pop_first book.asks }
put_level bid price (o ∷ q) book = record book { asks = BTreeMap.insert price (o ∷ q) book.asks }
put_level ask price [] book = record book { bids = BTreeMap.pop_last book.bids }
put_level ask price (o ∷ q) book = record book { bids = BTreeMap.insert price (o ∷ q) book.bids }

unfoldable pub match_level : Pair → ℕ → List Order → Run → Run
match_level pair price queue run =
    let (queue', run') = match_queue pair queue run in
    record run' { book = put_level run.order.side price queue' run'.book }

-- The outer loop, on fuel: a round uses up a level or fills the taker.
unfoldable pub sweep : ℕ → Pair → Run → Run
sweep zero pair run = run
sweep (suc fuel) pair run = elim (next_level run) [
  | none ↦ run
  | some (price, queue) ↦ sweep fuel pair (match_level pair price queue run)
]

-- `entry(price).or_insert(VecDeque::new()).push_back(order)`
unfoldable pub push_back : Order → BTreeMap.BTreeMap (List Order) → BTreeMap.BTreeMap (List Order)
push_back order levels =
    BTreeMap.insert order.price (HashMap.or_else [] (BTreeMap.get order.price levels) ++ order ∷ [])
      levels

unfoldable pub rest_in : Order → OrderBook → OrderBook
unfolding push_back
rest_in order book = elim order.side [
  | bid ↦ record book { bids = push_back order book.bids }
  | ask ↦ record book { asks = push_back order book.asks }
]

-- What a limit order has left rests at the back of its own price's queue.
unfoldable pub rest : Order → OrderBook → OrderBook
unfolding rest_in
rest order book =
    let book' = rest_in order book in
    if nat_eqb order.remaining_size 0
    then book
    else if order_type_eqb order.order_type limit
    then record book' {
      dirty_levels = HashMap.with_elem (order.side, order.price) book.dirty_levels;
      order_index =
          HashMap.insert order.id
            (record { owner = order.account_id; side = order.side; price = order.price })
            book.order_index;
    }
    else book

-- `taker_status`
unfoldable pub taker_status : Order → Option OrderStatus
taker_status order =
    if nat_eqb order.remaining_size 0
    then some filled
    else if order_type_eqb order.order_type market
    then some cancelled
    else if ltb 0 (sub_u64 order.size order.remaining_size)
    then some partially_filled
    else none

unfoldable pub taker_updates : Order → List OrderUpdate
unfolding taker_status
taker_updates order = elim (taker_status order) [
  | none ↦ []
  | some status ↦
      record {
        order_id = order.id;
        account_id = order.account_id;
        filled_qty = sub_u64 order.size order.remaining_size;
        remaining_size = order.remaining_size;
        status = status;
      }
      ∷ []
]

-- The levels of the other side, one round each, and a last round for the test.
unfoldable pub sweep_fuel : Side → OrderBook → ℕ
sweep_fuel bid book = suc (length book.asks)
sweep_fuel ask book = suc (length book.bids)

unfoldable pub run_order : ℕ → AccountId → OrderRequest → OrderBook → Run
run_order order_id account_id req book =
    sweep (sweep_fuel req.side book) req.pair
      (record { order = new_order order_id account_id req; trades = []; updates = []; book = book })

unfoldable pub add_order : ℕ → AccountId → OrderRequest → OrderBook → MatchResponse × OrderBook
add_order order_id account_id req book =
    let run = run_order order_id account_id req book in
    let (deltas, book') = take_dirty_levels (rest run.order run.book) in
    (
      record {
        order_id = run.order.id;
        trades = run.trades;
        updates = run.updates ++ taker_updates run.order;
        taker_remaining = run.order.remaining_size;
        book_deltas = deltas;
      },
      book',
    )
