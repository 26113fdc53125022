-- ===== src/Book/Cancel.antt =====
-- book.rs, `OrderBook::cancel_order`.
use cex_matching_engine.Prelude.{
  ◌>>=◌, ℕ, zero, suc, Option, none, some, List, [], ◌∷◌, nat_eqb, if◌then◌else◌, nat_eq, pair_eq,
}
use cex_matching_engine.Prelude.HashMap
use cex_matching_engine.Prelude.BTreeMap
use mathlib.Core.Option
use cex_matching_engine.Market.{AccountId}
use cex_matching_engine.Book.Types.{Side, bid, ask, Order, LevelDelta, OrderBook, side_eq}
use cex_matching_engine.Book.Levels.{levels_of, take_dirty_levels}

-- `order_queue.iter().position(|order| order.id == order_id)`
unfoldable pub position : ℕ → List Order → Option ℕ
position order_id [] = none
position order_id (o ∷ queue) =
    if nat_eqb o.id order_id then some 0 else Option.map suc (position order_id queue)

-- `order_queue.remove(index)`
unfoldable pub remove_at : ℕ → List Order → Option (Order × List Order)
remove_at i [] = none
remove_at zero (o ∷ queue) = some (o, queue)
remove_at (suc i) (o ∷ queue) =
    Option.map (λ (r : Order × List Order). (r.0, o ∷ r.1)) (remove_at i queue)

-- The level after the removal: an empty queue leaves the map.
unfoldable pub put_queue : Side → ℕ → List Order → OrderBook → OrderBook
put_queue bid price [] book = record book { bids = BTreeMap.remove price book.bids }
put_queue bid price (o ∷ q) book = record book { bids = BTreeMap.insert price (o ∷ q) book.bids }
put_queue ask price [] book = record book { asks = BTreeMap.remove price book.asks }
put_queue ask price (o ∷ q) book = record book { asks = BTreeMap.insert price (o ∷ q) book.asks }

-- The bookkeeping behind a removal, with the removed order and the deltas as the result.
unfoldable pub forget_order :
    ℕ → Side → ℕ → Order × List Order → OrderBook → Order × List LevelDelta × OrderBook
forget_order order_id side price (removed, queue) book =
    let book' = put_queue side price queue book in
    let (deltas, book'') = take_dirty_levels (record book' {
      order_index = HashMap.remove order_id book'.order_index;
      dirty_levels = HashMap.with_elem (side, price) book'.dirty_levels;
    }) in
    (removed, deltas, book'')

-- `None` leaves the book as it was: nothing is written before the last early return.
unfoldable pub cancel_order :
    AccountId → ℕ → OrderBook → Option (Order × List LevelDelta × OrderBook)
cancel_order account_id order_id book = do
  location ← HashMap.get order_id book.order_index
  owned ← if nat_eqb account_id location.owner then some location else none
  queue ← BTreeMap.get owned.price (levels_of owned.side book)
  index ← position order_id queue
  removed ← remove_at index queue
  some (forget_order order_id owned.side owned.price removed book)
