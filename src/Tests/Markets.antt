-- ===== src/Tests/Markets.antt =====
-- A book that commands lead to.
use cex_matching_engine.Prelude.{
  ◌≡◌, refl, some, none, List, Option, [], ◌∷◌, true, add_u64, checked_mul, sub_u64,
}
use cex_matching_engine.Prelude.HashMap
use cex_matching_engine.Prelude.BTreeMap
use cex_matching_engine.Market.{usd, is_valid}
use cex_matching_engine.Reject.{ok}
use cex_matching_engine.Book.Types.{bid, OrderBook, limit}
use cex_matching_engine.Command.{
  Command, CommandResponse, EventBatch, balance_changed, order_accepted, book_delta,
}
use cex_matching_engine.Engine.State.{Engine, new_engine, insert_key, evict, forget_key}
use cex_matching_engine.Engine.Apply.{
  apply, run_command, dispatch, emit, balance_events, balance_event, stamp, placed, place_events,
  place_response, filled_qty, total_cost,
}
use cex_matching_engine.Engine.Operations.{
  place_order, check_order, quote_amount, reserve_for, after_reserve, match_and_settle, matched,
  settled, settle_all, surplus, release_rest, route, drop_routes,
}
use cex_matching_engine.Book.Matching.{
  add_order, run_order, sweep, sweep_fuel, next_level, rest, rest_in, push_back, new_order,
  taker_status, taker_updates,
}
use cex_matching_engine.Book.Levels.{take_dirty_levels, best_level, level_qty, levels_of, qty_at}
use cex_matching_engine.Ledger
use cex_matching_engine.Engine.Books.{AllBooks}
use cex_matching_engine.Engine.Markets.{IsMarket, here, step, new_engine-IsMarket}
use cex_matching_engine.Projection.{new_store}
use cex_matching_engine.Projection.Levels.{shown}
use cex_matching_engine.Projection.Events.{quantity}
use cex_matching_engine.Projection.Mirror.{idle, answered, delivered, new_engine-Mirrors, Answers}
use cex_matching_engine.Engine.Statements.{statement, new_engine-statement}
use cex_matching_engine.Tests.Sample.{sol_usd, limit_order, resting}
use cex_matching_engine.Tests.Commands.{first_batch, a_deposit, after_deposit, deposit_runs}

abbrev listing : Command
listing = Command.list_pair sol_usd

abbrev after_listing : Engine
after_listing = record after_deposit {
  listed_pairs = sol_usd ∷ [];
  dedup = record { seen = (1, 7) ∷ (1, 8) ∷ []; order = (1, 7 ∷ 8 ∷ []) ∷ [] };
}

listing_runs :
    apply 1 8 listing after_deposit
    ≡ some ((CommandResponse.list_pair (ok true), none), after_listing)
unfolding apply insert_key HashMap.contains run_command dispatch emit balance_events
    Ledger.take_dirty HashMap.get HashMap.with_elem HashMap.insert HashMap.get_or stamp evict
    forget_key is_valid
listing_runs = refl

abbrev a_bid : Command
a_bid = Command.place (limit_order bid 10 3)

abbrev bid_batch : EventBatch
bid_batch = record {
  seq = 1;
  events =
      order_accepted (record {
        order_id = 0;
        account_id = 1;
        pair = sol_usd;
        side = bid;
        order_type = limit;
        price = 10;
        size = 3;
      })
      ∷ book_delta (record { pair = sol_usd; side = bid; price = 10; qty = 3 })
      ∷ balance_changed (record { account_id = 1; currency = usd; available = 20; reserved = 30 })
      ∷ [];
}

abbrev bid_book : OrderBook
bid_book = record {
  bids = (10, resting 0 1 bid 10 3 ∷ []) ∷ [];
  asks = [];
  order_index = (0, record { owner = 1; side = bid; price = 10 }) ∷ [];
  dirty_levels = [];
  last_trade_price = none;
}

abbrev after_bid : Engine
after_bid = record after_listing {
  books = (sol_usd, bid_book) ∷ [];
  order_pair = (0, sol_usd) ∷ [];
  next_order_id = 1;
  next_seq = 2;
  ledger = record {
    balances = (1, (usd, record { available = 20; reserved = 30 }) ∷ []) ∷ [];
    dirty = [];
  };
  dedup = record { seen = (1, 7) ∷ (1, 8) ∷ (1, 9) ∷ []; order = (1, 7 ∷ 8 ∷ 9 ∷ []) ∷ [] };
}

bid_runs :
    apply 1 9 a_bid after_listing
    ≡ some (
      (
        CommandResponse.place (ok (record { order_id = 0; filled_qty = 0; total_cost = 0 })),
        some bid_batch,
      ),
      after_bid,
    )
unfolding apply insert_key HashMap.contains run_command dispatch emit balance_events balance_event
    Ledger.take_dirty HashMap.get HashMap.with_elem HashMap.insert HashMap.get_or stamp evict
    forget_key is_valid place_order check_order quote_amount checked_mul reserve_for Ledger.reserve
    Ledger.balance_of Ledger.set_balance Ledger.mark add_u64 sub_u64 after_reserve match_and_settle
    matched settled settle_all surplus release_rest route drop_routes HashMap.contains_key add_order
    run_order sweep sweep_fuel next_level best_level BTreeMap.first_key_value rest rest_in push_back
    BTreeMap.insert BTreeMap.get new_order taker_status taker_updates take_dirty_levels qty_at
    levels_of level_qty placed place_events place_response filled_qty total_cost
bid_runs = refl

new_engine-IsMarket_example : AllBooks IsMarket after_bid.books
new_engine-IsMarket_example =
    new_engine-IsMarket ((1, 7, a_deposit) ∷ (1, 8, listing) ∷ (1, 9, a_bid) ∷ []) after_bid (
      step 1 7 a_deposit _ new_engine after_deposit after_bid _ deposit_runs (
        step 1 8 listing _ after_deposit after_listing after_bid _ listing_runs
          (step 1 9 a_bid _ after_listing after_bid after_bid _ bid_runs (here after_bid))))

abbrev answers : List (CommandResponse × Option EventBatch)
answers =
    (CommandResponse.deposit (ok 50), some first_batch)
    ∷ (CommandResponse.list_pair (ok true), none)
    ∷ (
      CommandResponse.place (ok (record { order_id = 0; filled_qty = 0; total_cost = 0 })),
      some bid_batch,
    )
    ∷ []

answers_run : Answers answers new_engine after_bid
answers_run = answered 1 7 a_deposit _ _ new_engine after_deposit after_bid deposit_runs (
    answered 1 8 listing _ _ after_deposit after_listing after_bid listing_runs
      (answered 1 9 a_bid _ _ after_listing after_bid after_bid bid_runs (idle after_bid)))

new_engine-Mirrors_example :
    shown sol_usd bid 10 (delivered answers new_store).books
    ≡ quantity sol_usd bid 10 after_bid.books
new_engine-Mirrors_example =
    new_engine-Mirrors answers after_bid sol_usd bid 10 answers_run
      ((λ e. cc), ((λ e. cc), ((λ e. cc), tt)))

new_engine-statement_example :
    Ledger.balance_of 1 usd after_bid.ledger ≡ statement 1 usd answers Ledger.no_balance
new_engine-statement_example = new_engine-statement answers after_bid 1 usd answers_run
