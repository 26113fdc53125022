-- ===== src/Tests/Sample.antt =====
-- A book, a ledger and some orders, as the repository's own tests set them up.
use cex_matching_engine.Prelude.{ℕ, none, [], ◌∷◌}
use cex_matching_engine.Market.{AccountId, usd, sol, Pair}
use cex_matching_engine.Book.Types.{Side, ask, market, limit, Order, OrderRequest, OrderBook}
use cex_matching_engine.Ledger.{Ledger}

abbrev pub sol_usd : Pair
sol_usd = record { base = sol; quote = usd }

abbrev pub resting : ℕ → AccountId → Side → ℕ → ℕ → Order
resting id account_id side price size = record {
  id = id;
  order_type = limit;
  side = side;
  price = price;
  size = size;
  remaining_size = size;
  account_id = account_id;
}

abbrev pub limit_order : Side → ℕ → ℕ → OrderRequest
limit_order side price size = record {
  pair = sol_usd;
  order_type = limit;
  side = side;
  price = price;
  size = size;
}

abbrev pub market_order : Side → ℕ → OrderRequest
market_order side size = record {
  pair = sol_usd;
  order_type = market;
  side = side;
  price = 0;
  size = size;
}

-- Two orders at the best ask and one behind it.
abbrev pub asks_book : OrderBook
asks_book = record {
  bids = [];
  asks =
      (100, resting 0 2 ask 100 5 ∷ resting 1 3 ask 100 5 ∷ [])
      ∷ (101, resting 2 2 ask 101 4 ∷ [])
      ∷ [];
  order_index =
      (0, record { owner = 2; side = ask; price = 100 })
      ∷ (1, record { owner = 3; side = ask; price = 100 })
      ∷ (2, record { owner = 2; side = ask; price = 101 })
      ∷ [];
  dirty_levels = [];
  last_trade_price = none;
}

-- A buyer and a seller with what their orders reserved.
abbrev pub two_accounts : Ledger
two_accounts = record {
  balances =
      (1, (usd, record { available = 50; reserved = 500 }) ∷ [])
      ∷ (2, (sol, record { available = 3; reserved = 5 }) ∷ [])
      ∷ [];
  dirty = [];
}
