-- ===== src/Tests/Storage.antt =====
-- The database writer on a small batch.
use cex_matching_engine.Prelude.{
  refl, Bool, ltb, ℕ, ◌≡◌, Option, none, some, List, [], ◌∷◌, arith, All, add_u64, min,
  if◌then◌else◌, nat_eqb, ◌+◌, ◌≤◌, ◌<◌,
}
use cex_matching_engine.Prelude.Int.{ℤ, pos, ◌+ℤ◌, quot, as_i64}
use cex_matching_engine.Prelude.HashMap
use cex_matching_engine.Prelude.HashMap.{or_else}
use cex_matching_engine.Prelude.Text.{Text, codes, split_once, show}
use cex_matching_engine.Market.{usd}
use cex_matching_engine.Market.Symbol.{show_pair, show_currency}
use cex_matching_engine.Book.Types.{Trade, bid, limit, filled, show_status}
use cex_matching_engine.Command.{
  Event, EventBatch, trade, balance_changed, order_accepted, order_updated,
}
use cex_matching_engine.Runtime.{Entry}
use cex_matching_engine.DbWriter.{event_id, entry_millis}
use cex_matching_engine.DbWriter.Tables.{
  Database, apply_all, apply_event, apply_trade, apply_batch, enumerated, upsert_widths,
  upsert_candle, candle_after, bucket_of, trade_row, millis_of, set_row, insert_order, update_order,
  open_row,
}
use cex_matching_engine.DbWriter.Stored.{Events, orders_step}
use cex_matching_engine.DbWriter.OrderRows.{AllFound}
use cex_matching_engine.DbWriter.Redelivery.{SameRows, apply_all_redelivered}
use cex_matching_engine.DbWriter.Charts.{IsCharted, apply_all-IsCharted}
use cex_matching_engine.DbWriter.Loop.{
  Effect, Writer, round, stage, batch_of, finish, trim_step, commit_effects,
}
use cex_matching_engine.DbWriter.Reading.{tables_after, count, ids}
use cex_matching_engine.DbWriter.Rounds.{Committed, acked, round_commits}
use cex_matching_engine.DbWriter.Trims.{SafeCut, round_trims}
use cex_matching_engine.DbWriter.Retention.{prune}
use cex_matching_engine.DbWriter.Pruning.{expired_count, unexpired, prune_bounds}
use cex_matching_engine.Snapshot.{earlier}
use cex_matching_engine.Tests.Sample.{sol_usd}

abbrev no_tables : Database
no_tables = record { trades = []; candles = []; balances = []; orders = [] }

abbrev a_trade : ℕ → ℕ → Trade
a_trade price qty = record {
  pair = sol_usd;
  price = price;
  qty = qty;
  maker_id = 0;
  taker_id = 1;
  taker_side = bid;
  maker_account = 2;
  taker_account = 1;
}

abbrev an_order : Event
an_order = order_accepted (record {
  order_id = 1;
  account_id = 1;
  pair = sol_usd;
  side = bid;
  order_type = limit;
  price = 101;
  size = 5;
})

abbrev its_end : Event
its_end = order_updated (record {
  order_id = 1;
  account_id = 1;
  pair = sol_usd;
  filled_qty = 5;
  remaining_qty = 0;
  status = filled;
})

abbrev batch : EventBatch
batch = record {
  seq = 4;
  events =
      an_order
      ∷ trade (a_trade 100 3)
      ∷ trade (a_trade 101 2)
      ∷ its_end
      ∷ balance_changed (record { account_id = 1; currency = usd; available = 40; reserved = 0 })
      ∷ [];
}

abbrev clock : Text → ℤ
clock id = pos 1700000000000

-- The same, a minute later.
abbrev later_clock : Text → ℤ
later_clock id = pos 1700000060000

events : Events
events = enumerated batch.seq 0 batch.events

tables : Database
tables = or_else no_tables (apply_all clock events no_tables)

tables_run : apply_all clock events no_tables ≡ some tables
unfolding tables events enumerated event_id show apply_all apply_event apply_trade upsert_widths
    upsert_candle candle_after bucket_of trade_row millis_of set_row insert_order update_order
    open_row HashMap.get HashMap.insert quot as_i64 ◌+ℤ◌ show_pair show_currency show_status
    split_once entry_millis
tables_run = refl

events-AllFound : AllFound events no_tables.orders
unfolding events enumerated event_id orders_step insert_order update_order HashMap.get
    HashMap.insert open_row show_status
events-AllFound = (tt, (tt, (tt, ((λ e. cc), (tt, tt)))))

apply_all_redelivered_example :
    (twice : Database) × (apply_all later_clock events tables ≡ some twice) × SameRows tables twice
apply_all_redelivered_example =
    apply_all_redelivered clock later_clock events no_tables tables tables_run events-AllFound

no_tables-IsCharted : IsCharted no_tables
unfolding HashMap.get
no_tables-IsCharted = λ k. refl

apply_all-IsCharted_example : IsCharted tables
apply_all-IsCharted_example =
    apply_all-IsCharted clock events no_tables tables tables_run no_tables-IsCharted

-- A batch, and an entry that has no text.
abbrev entries : List Entry
entries =
    record { id = codes "1-0"; payload = some (codes "batch") }
    ∷ record { id = codes "2-0"; payload = none }
    ∷ []

abbrev read : Text → Option EventBatch
read text = some batch

-- The hundredth round since a trim.
abbrev writer : Writer
writer = record { tables = no_tables; batches_since_trim = 99 }

ended : List Effect × Writer
ended = or_else ([], writer) (round read clock (some (codes "0-7")) entries writer)

round_runs : round read clock (some (codes "0-7")) entries writer ≡ some (ended.0, ended.1)
unfolding ended round stage batch_of apply_batch finish trim_step commit_effects earlier enumerated
    event_id show apply_all apply_event apply_trade upsert_widths upsert_candle candle_after
    bucket_of trade_row millis_of set_row insert_order update_order open_row HashMap.get
    HashMap.insert quot as_i64 ◌+ℤ◌ show_pair show_currency show_status split_once entry_millis
    add_u64
round_runs = refl

round_commits_example :
    (tables_after read clock entries no_tables ≡ some ended.1.tables)
    × Committed no_tables ended.1.tables ended.0
    × ((id : Text) → count id (acked ended.0) ≡ count id (ids entries))
round_commits_example =
    round_commits read clock (some (codes "0-7")) entries writer ended.1 ended.0 round_runs

round_trims_example :
    All (SafeCut (ids entries) (some (codes "0-7")) 99) ended.0 × (ended.1.batches_since_trim < 100)
round_trims_example =
    round_trims read clock (some (codes "0-7")) entries writer ended.1 ended.0 (omega arith)
      round_runs

abbrev rows : List ℕ
rows = 1 ∷ 5 ∷ 2 ∷ []

abbrev is_old : ℕ → Bool
is_old n = ltb n 3

prune_bounds_example :
    let (left, total, ran) = prune is_old 7 rows in
    (total ≡ (if nat_eqb 7 0 then 0 else min 100000 (expired_count is_old rows)))
    × (expired_count is_old left + total ≡ expired_count is_old rows)
    × (unexpired is_old left ≡ unexpired is_old rows)
    × (ran ≤ 20)
prune_bounds_example = prune_bounds is_old 7 rows
