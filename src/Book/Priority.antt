-- ===== src/Book/Priority.antt =====
-- `add_order` against its specification: price-time priority.
use mathlib.Core.List.{reverse-cons}
use cex_matching_engine.Prelude.{
  ℕ, ◌+◌, ◌-◌, ◌<◌, ◌≡◌, refl, List, [], ◌∷◌, map, arith, sum_of, length, length-append, reverse,
  ap, ◌∙◌,
}
use cex_matching_engine.Prelude.BTreeMap.{IsSorted}
use cex_matching_engine.Market.{AccountId, Pair}
use cex_matching_engine.Book.Types.{Order, OrderRequest, OrderBook, Side, bid, ask, Trade}
use cex_matching_engine.Book.Matching.{new_order, run_order, sweep_fuel, rest, add_order, trade_of}
use cex_matching_engine.Book.Fills.{Fill, fills, volume, sum_of-fills, fill_qty}
use cex_matching_engine.Book.Sides.{Level, best_first, facing}
use cex_matching_engine.Book.Queue.{fill_trade}
use cex_matching_engine.Book.Reach.{reachable, swept}
use cex_matching_engine.Book.Rounds.{Swept, same_best_first}
use cex_matching_engine.Book.Sweep.{sweep-Swept}
use cex_matching_engine.Book.Levels.{take_dirty_levels}

length-reverse : (ls : List Level) → length (reverse ls) ≡ length ls
length-reverse [] = refl
length-reverse (x ∷ ls) =
    omega
      (arith, ap length (reverse-cons x ls), length-append (reverse ls) (x ∷ []), length-reverse ls)

pub sweep_fuel-enough :
    (s : Side) (book : OrderBook) → length (best_first s book) < sweep_fuel s book
unfolding sweep_fuel
sweep_fuel-enough bid book = omega arith
sweep_fuel-enough ask book = omega (arith, length-reverse book.bids)

-- What rests does not touch the other side.
pub facing-rest :
    (o : Order) (b : OrderBook) (s : Side)
    → o.side ≡ s
    → (best_first s (rest o b) ≡ best_first s b) × (facing s (rest o b) ≡ facing s b)
unfolding rest
facing-rest o b bid e = ground arith
facing-rest o b ask e = ground arith

sum_of-fill_trade :
    (pair : Pair) (t : Order) (fs : List Fill)
    → sum_of (λ (t : Trade). t.qty) (map (fill_trade pair t) fs) ≡ sum_of fill_qty fs
unfolding trade_of
sum_of-fill_trade pair t [] = refl
sum_of-fill_trade pair t (f ∷ fs) = omega (arith, sum_of-fill_trade pair t fs)

module _ (order_id : ℕ) (account_id : AccountId) (req : OrderRequest) (book : OrderBook) where
  abbrev pub taker : Order
  taker = new_order order_id account_id req

  -- The makers within the order's limit, best price first and the oldest first at each price.
  abbrev pub makers : List Order
  makers = reachable (new_order order_id account_id req) (best_first req.side book)

  pub run_order-Swept :
      IsSorted (facing req.side book)
      → Swept req.pair
          (record { order = taker; trades = []; updates = []; book = book })
          (best_first req.side book)
          (run_order order_id account_id req book)
  unfolding run_order new_order
  run_order-Swept sorted =
      sweep-Swept (sweep_fuel req.side book) req.pair _ (best_first req.side book) refl sorted
        (sweep_fuel-enough req.side book)

  -- From a book in order, `add_order` trades with the makers within the limit in turn, best price
  -- first and oldest first, each for the smaller of what the two sides have left; what is left of
  -- the order is the size less the volume of those makers; and the levels of the other side are
  -- those that such an order leaves.
  pub add_order-fills :
      IsSorted (facing req.side book)
      → let (res, book') = add_order order_id account_id req book in
        (res.trades ≡ map (fill_trade req.pair taker) (fills req.size makers))
        × (res.taker_remaining ≡ req.size - volume makers)
        × (best_first req.side book' ≡ swept req.size taker (best_first req.side book))
  unfolding add_order take_dirty_levels new_order
  add_order-fills sorted =
      let run = run_order order_id account_id req book in
      let h = run_order-Swept sorted in
      let side : run.order.side ≡ req.side = ap (λ (o : Order). o.side) h.order in
      let rested = rest run.order run.book in
      let drained : OrderBook = record rested { dirty_levels = [] } in
      (
        h.trades,
        ap (λ (o : Order). o.remaining_size) h.order,
        same_best_first rested drained refl refl req.side
            ∙ (facing-rest run.order run.book req.side side).0
            ∙ h.levels,
      )

  -- Every unit of the order is traded or left: the quantities of the trades and what the taker has
  -- left add up to the size of the order.
  add_order-conserves :
      IsSorted (facing req.side book)
      → let res = (add_order order_id account_id req book).0 in
        sum_of (λ (t : Trade). t.qty) res.trades + res.taker_remaining ≡ req.size
  add_order-conserves sorted =
      let h = add_order-fills sorted in
      omega (
        arith,
        ap (sum_of (λ (t : Trade). t.qty)) h.0,
        h.1,
        sum_of-fill_trade req.pair taker (fills req.size makers),
        sum_of-fills req.size makers,
      )
