-- ===== src/DbWriter/Retention.antt =====
-- bin/db_writer.rs, `Retention`: the settings, and the sweep that deletes old rows. A statement that
-- fails is not modelled; times are in milliseconds.
use cex_matching_engine.Prelude.{
  ℕ, zero, suc, ◌+◌, ◌*◌, Option, none, some, List, [], ◌∷◌, Bool, true, false, ◌&&◌, ◌||◌, ltb,
  nat_eqb, if◌then◌else◌,
}
use cex_matching_engine.Prelude.Int.{ℤ, pos, negsuc, ◌+ℤ◌, opposite, ltb_ℤ, times}
use cex_matching_engine.Prelude.HashMap.{or_else}
use cex_matching_engine.Prelude.Text.{Text, codes, text_eqb}
use cex_matching_engine.DbWriter.{parse_signed}
use cex_matching_engine.DbWriter.Tables.{Database, TradeRow, CandleRow, CandleKey, OrderRow}

abbrev pub retention_batch : ℕ
retention_batch = 5000

abbrev pub retention_max_batches : ℕ
retention_max_batches = 20

abbrev pub default_order_retention_days : ℕ
default_order_retention_days = 7

abbrev pub default_trade_retention_days : ℕ
default_trade_retention_days = 365

abbrev pub default_candle_1s_retention_days : ℕ
default_candle_1s_retention_days = 2

pub record Retention : Type 0 where
  pub order_days : ℕ
  pub trade_days : ℕ
  pub candle_1s_days : ℕ

abbrev not_negative : Option ℤ → Option ℕ
not_negative (some (pos n)) = some n
not_negative (some (negsuc n)) = none
not_negative none = none

-- `days` of a variable of the environment, as an `i32`
unfoldable pub days_of : Option Text → ℕ → ℕ
unfolding parse_signed
days_of none default = default
days_of (some v) default = or_else default (not_negative (parse_signed 2147483648 v))

-- `from_env`; the environment gives the three variables.
unfoldable pub from_env : Option Text → Option Text → Option Text → Retention
unfolding days_of
from_env orders trades candles = record {
  order_days = days_of orders default_order_retention_days;
  trade_days = days_of trades default_trade_retention_days;
  candle_1s_days = days_of candles default_candle_1s_retention_days;
}

module _ {ℓ} {A : Type ℓ} (expired : A → Bool) where
  -- The rows after `DELETE … WHERE ctid IN (SELECT … LIMIT limit)`, and how many it deleted.
  unfoldable pub delete_limit : ℕ → List A → List A × ℕ
  delete_limit limit [] = ([], 0)
  delete_limit zero (x ∷ xs) = (x ∷ xs, 0)
  delete_limit (suc n) (x ∷ xs) = elim (expired x) [
    | true ↦ let (rest, k) = delete_limit n xs in (rest, suc k)
    | false ↦ let (rest, k) = delete_limit (suc n) xs in (x ∷ rest, k)
  ]

  -- The loop of `prune` over the batches that are left: the rows, the total, and how many
  -- statements ran.
  unfoldable pub prune_batches : ℕ → ℕ → List A → List A × ℕ × ℕ
  prune_batches zero total rows = (rows, total, 0)
  prune_batches (suc n) total rows =
      let (rest, deleted) = delete_limit retention_batch rows in
      let (final, sum, ran) = prune_batches n (total + deleted) rest in
      if ltb deleted retention_batch then (rest, total + deleted, 1) else (final, sum, suc ran)

  unfoldable pub prune : ℕ → List A → List A × ℕ × ℕ
  prune days rows =
      if nat_eqb days 0 then (rows, 0, 0) else prune_batches retention_max_batches 0 rows

abbrev pub day : ℕ
day = 86400000

-- `now() - make_interval(days => days)`
unfoldable pub cutoff : ℤ → ℕ → ℤ
cutoff now days = now +ℤ opposite (days * day)

abbrev pub is_terminal : Text → Bool
is_terminal status = text_eqb status (codes "filled") || text_eqb status (codes "cancelled")

-- the column `updated_at` of an order, by its id, is given
abbrev pub order_expired : (ℕ → ℤ) → ℤ → ℕ × OrderRow → Bool
order_expired updated_at before (id, row) = is_terminal row.status && ltb_ℤ (updated_at id) before

abbrev pub trade_expired : ℤ → Text × TradeRow → Bool
trade_expired before (id, row) = ltb_ℤ row.created_at before

-- `bucket`, in seconds, against the cutoff
abbrev pub candle_expired : ℤ → CandleKey × CandleRow → Bool
candle_expired before ((pair, w, bucket), row) = nat_eqb w 1 && ltb_ℤ (times bucket 1000) before

-- `sweep`
unfoldable pub sweep : Retention → ℤ → (ℕ → ℤ) → Database → Database
sweep r now updated_at db = record db {
  orders = (prune (order_expired updated_at (cutoff now r.order_days)) r.order_days db.orders).0;
  trades = (prune (trade_expired (cutoff now r.trade_days)) r.trade_days db.trades).0;
  candles = (prune (candle_expired (cutoff now r.candle_1s_days)) r.candle_1s_days db.candles).0;
}
