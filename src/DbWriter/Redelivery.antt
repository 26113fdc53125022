-- ===== src/DbWriter/Redelivery.antt =====
-- bin/db_writer.rs: a second delivery of events that were stored leaves the database as it is.
use cex_matching_engine.Prelude.{refl, ℕ, ◌≡◌, some, ◌∙◌, ap, sym, pair_eq, nat_eq}
use cex_matching_engine.Prelude.Int.{ℤ}
use cex_matching_engine.Prelude.HashMap
use cex_matching_engine.Prelude.HashMap.{HashMap}
use cex_matching_engine.Prelude.Text.{Text, text_eq}
use cex_matching_engine.Market.{AccountId}
use cex_matching_engine.DbWriter.Tables.{Database, apply_all}
use cex_matching_engine.DbWriter.Stored.{
  Events, orders_after, balances_after, apply_all-AllStored, apply_all-others, apply_all-again,
  with_others,
}
use cex_matching_engine.DbWriter.BalanceRows.{
  balance_after_twice, get-balances_after, balance_after,
}
use cex_matching_engine.DbWriter.OrderRows.{
  order_after_twice, get-orders_after, order_after, AllFound,
}

-- Two databases with the same rows.
pub record SameRows (a b : Database) : Type 0 where
  pub trades : a.trades ≡ b.trades
  pub candles : a.candles ≡ b.candles
  pub balances : (k : AccountId × Text) → HashMap.get k a.balances ≡ HashMap.get k b.balances
  pub orders : (id : ℕ) → HashMap.get id a.orders ≡ HashMap.get id b.orders

-- Where events were applied without an error and each that changes the row of an order found it,
-- applying them a second time, at whatever times, succeeds and leaves every row of the four tables
-- as it is: no trade counts twice in a candle.
pub apply_all_redelivered :
    (clock clock' : Text → ℤ) (es : Events) (db once : Database)
    → apply_all clock es db ≡ some once
    → AllFound es db.orders
    → (twice : Database) × (apply_all clock' es once ≡ some twice) × SameRows once twice
apply_all_redelivered clock clock' es db once ran found =
    let (balances, orders) = apply_all-others clock es db once ran in
    (
      with_others once (balances_after es once.balances) (orders_after es once.orders),
      apply_all-again clock' es once (apply_all-AllStored clock es db once ran),
      record {
        trades = refl;
        candles = refl;
        balances = λ k.
            let was : HashMap.get k once.balances ≡ balance_after k es (HashMap.get k db.balances) =
              ap (HashMap.get k) balances ∙ get-balances_after k es db.balances in
            was
            ∙ sym (balance_after_twice k es (HashMap.get k db.balances))
            ∙ ap (balance_after k es) (sym was)
            ∙ sym (get-balances_after k es once.balances);
        orders = λ id.
            let was : HashMap.get id once.orders ≡ order_after id es (HashMap.get id db.orders) =
              ap (HashMap.get id) orders ∙ get-orders_after id es db.orders in
            was
            ∙ sym (order_after_twice id es db.orders found)
            ∙ ap (order_after id es) (sym was)
            ∙ sym (get-orders_after id es once.orders);
      },
    )
