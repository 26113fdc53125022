-- ===== src/Tests/Books.antt =====
-- The order book on small inputs.
use cex_matching_engine.Prelude.{◌≡◌, refl, none, [], ◌∷◌, arith, map, sum_of, ◌-◌, some}
use cex_matching_engine.Prelude.HashMap
use cex_matching_engine.Prelude.BTreeMap
use cex_matching_engine.Prelude.{add_u64, sub_u64}
use cex_matching_engine.Book.Matching.{
  rest, run_order, sweep_fuel, next_level, new_order, out_of_reach, match_level, match_queue,
  maker_after, drop_index, match_front, taker_after, put_level, maker_update, push_back,
  taker_status, taker_updates, trade_of,
}
use cex_matching_engine.Book.Levels.{take_dirty_levels, best_level, level_qty, levels_of, qty_at}
use cex_matching_engine.Book.Types.{bid, ask, OrderBook}
use cex_matching_engine.Book.Matching.{add_order, sweep}
use cex_matching_engine.Book.Levels.{would_self_trade, market_buy_cost}
use cex_matching_engine.Book.Cancel.{cancel_order}
use cex_matching_engine.Book.Ending.{run_order_ends}
use cex_matching_engine.Book.Order.{IsOrdered}
use cex_matching_engine.Book.Crossing.{IsUncrossed}
use cex_matching_engine.Book.Uncrossed.{add_order-IsUncrossed}
use cex_matching_engine.Book.Cancel.{position, remove_at, forget_order, put_queue}
use cex_matching_engine.Tests.Sample.{sol_usd, limit_order, market_order, asks_book, resting}
use cex_matching_engine.Prelude.BTreeMap.{IsSorted}
use cex_matching_engine.Book.BuyCost.{
  AreLevels, checked_total, trade_cost, market_buy_cost-add_order,
}
use cex_matching_engine.Book.Queue.{fill_trade}
use cex_matching_engine.Book.SelfTrade.{any_maker, would_self_trade-add_order}
use cex_matching_engine.Book.Priority.{taker, makers, add_order-fills}
use cex_matching_engine.Book.Fills.{fills, volume}
use cex_matching_engine.Book.Sides.{best_first}
use cex_matching_engine.Book.Reach.{swept}

asks_book-IsSorted : IsSorted asks_book.asks
asks_book-IsSorted = ((omega arith, tt), (tt, tt))

asks_book-AreLevels : AreLevels asks_book.asks
asks_book-AreLevels = (((refl, (refl, tt)), omega arith), (((refl, tt), omega arith), tt))

-- The first maker is filled, the second is left with 4.
partial_deltas :
    (add_order 7 1 (limit_order bid 100 6) asks_book).0.book_deltas ≡ (ask, 100, 4) ∷ []
unfolding add_order take_dirty_levels rest run_order sweep sweep_fuel next_level new_order
    best_level BTreeMap.first_key_value out_of_reach match_level match_queue maker_after drop_index
    match_front taker_after put_level level_qty levels_of qty_at maker_update push_back taker_status
    taker_updates trade_of BTreeMap.get BTreeMap.insert BTreeMap.last_key_value BTreeMap.pop_first
    BTreeMap.pop_last HashMap.insert HashMap.remove HashMap.with_elem add_u64 sub_u64
partial_deltas = refl

-- Another account's order is not removed.
cancel_other : cancel_order 9 0 asks_book ≡ none
unfolding cancel_order HashMap.get
cancel_other = refl

add_order-fills_example :
    let (res, book') = add_order 7 1 (limit_order bid 100 6) asks_book in
    (res.trades
      ≡ map
          (fill_trade sol_usd (taker 7 1 (limit_order bid 100 6) asks_book))
          (fills 6 (makers 7 1 (limit_order bid 100 6) asks_book)))
    × (res.taker_remaining ≡ 6 - volume (makers 7 1 (limit_order bid 100 6) asks_book))
    × (best_first bid book'
        ≡ swept 6 (taker 7 1 (limit_order bid 100 6) asks_book) (best_first bid asks_book))
add_order-fills_example = add_order-fills 7 1 (limit_order bid 100 6) asks_book asks_book-IsSorted

run_order_ends_example : next_level (run_order 7 1 (market_order bid 12) asks_book) ≡ none
run_order_ends_example = run_order_ends 7 1 (market_order bid 12) asks_book asks_book-IsSorted

would_self_trade-add_order_example :
    would_self_trade 3 (limit_order bid 100 6) asks_book
    ≡ any_maker 3 (add_order 7 3 (limit_order bid 100 6) asks_book).0.trades
would_self_trade-add_order_example =
    would_self_trade-add_order 7 3 (limit_order bid 100 6) asks_book asks_book-IsSorted
      (omega arith)

market_buy_cost-add_order_example :
    market_buy_cost 12 asks_book
    ≡ checked_total (sum_of trade_cost (add_order 7 1 (market_order bid 12) asks_book).0.trades)
market_buy_cost-add_order_example =
    market_buy_cost-add_order 7 1 (market_order bid 12) asks_book asks_book-IsSorted
      asks_book-AreLevels refl refl

asks_book-IsOrdered : IsOrdered asks_book
asks_book-IsOrdered = record { bids = tt; asks = asks_book-IsSorted }

asks_book-IsUncrossed : IsUncrossed asks_book
asks_book-IsUncrossed = λ p q hp hq. cc

add_order-IsUncrossed_example : IsUncrossed (add_order 7 1 (limit_order bid 100 16) asks_book).1
add_order-IsUncrossed_example =
    add_order-IsUncrossed 7 1 (limit_order bid 100 16) asks_book asks_book-IsOrdered
      asks_book-IsUncrossed

-- The book once its last ask is cancelled.
abbrev shorter_book : OrderBook
shorter_book = record asks_book {
  asks = (100, resting 0 2 ask 100 5 ∷ resting 1 3 ask 100 5 ∷ []) ∷ [];
  order_index =
      (0, record { owner = 2; side = ask; price = 100 })
      ∷ (1, record { owner = 3; side = ask; price = 100 })
      ∷ [];
}

cancel_runs :
    cancel_order 2 2 asks_book ≡ some (resting 2 2 ask 101 4, (ask, 101, 0) ∷ [], shorter_book)
unfolding cancel_order HashMap.get levels_of BTreeMap.get position remove_at forget_order put_queue
    BTreeMap.remove HashMap.remove HashMap.with_elem take_dirty_levels qty_at
cancel_runs = refl
