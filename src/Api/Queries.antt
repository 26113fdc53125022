-- ===== src/Api/Queries.antt =====
-- bin/api/main.rs: the handlers that read the tables, `get_balances`, `get_orders` and
-- `get_candles`. Sorting is what ORDER BY asks for, in whatever way the database does it.
use cex_matching_engine.Prelude.{
  ℕ, zero, suc, Bool, true, false, ◌&&◌, not, Option, none, some, List, [], ◌∷◌, map, ltb, nat_eqb,
  if◌then◌else◌,
}
use cex_matching_engine.Prelude.Int.{ℤ, pos, negsuc, ltb_ℤ, as_i64, int_eqb}
use cex_matching_engine.Prelude.HashMap.{HashMap, or_else}
use cex_matching_engine.Prelude.Text.{Text, codes, text_eqb}
use cex_matching_engine.Market.{AccountId}
use cex_matching_engine.Market.Symbol.{parse_pair, show_pair}
use cex_matching_engine.Candle.{interval_seconds}
use cex_matching_engine.Api.{ApiError}
use cex_matching_engine.Api.Auth.{Outcome, done, failed}
use cex_matching_engine.DbWriter.Tables.{CandleKey, CandleRow, BalanceRow, OrderRow}

-- Insertion into a sorted list; `later x y` puts `x` behind `y`.
module _ {ℓ} {A : Type ℓ} (later : A → A → Bool) where
  unfoldable pub insert_sorted : A → List A → List A
  insert_sorted x [] = x ∷ []
  insert_sorted x (y ∷ ys) =
      let rest = insert_sorted x ys in if later x y then y ∷ rest else x ∷ y ∷ ys

  unfoldable pub order_by : List A → List A
  order_by [] = []
  order_by (x ∷ xs) = insert_sorted x (order_by xs)

module _ {ℓ} {A : Type ℓ} where
  abbrev pub filter : (A → Bool) → List A → List A
  filter p [] = []
  filter p (x ∷ xs) = if p x then x ∷ filter p xs else filter p xs

  abbrev pub take : ℕ → List A → List A
  take zero xs = []
  take (suc n) [] = []
  take (suc n) (x ∷ xs) = x ∷ take n xs

  abbrev pub drop : ℕ → List A → List A
  drop zero xs = xs
  drop (suc n) [] = []
  drop (suc n) (x ∷ xs) = drop n xs

abbrev pub default_candles_limit : ℤ
default_candles_limit = pos 200

abbrev pub max_candles_limit : ℕ
max_candles_limit = 1000

-- `clamp(1, MAX_CANDLES_LIMIT)`
unfoldable pub clamp_limit : ℤ → ℕ
clamp_limit (pos n) =
    if ltb n 1 then 1 else if ltb max_candles_limit n then max_candles_limit else n
clamp_limit (negsuc n) = 1

pub record CandlesQuery : Type 0 where
  pub interval : Text
  pub start : Option ℤ
  pub finish : Option ℤ
  pub limit : Option ℤ

pub record Candle : Type 0 where
  pub time : ℤ
  pub row : CandleRow

abbrev pub not_before : Option ℤ → ℤ → Bool
not_before none bucket = true
not_before (some start) bucket = not (ltb_ℤ bucket start)

abbrev pub is_before : Option ℤ → ℤ → Bool
is_before none bucket = true
is_before (some finish) bucket = ltb_ℤ bucket finish

-- the WHERE clause
unfoldable pub selects : Text → ℕ → CandlesQuery → CandleKey × CandleRow → Bool
selects pair seconds q ((p, w, bucket), row) =
    text_eqb p pair && nat_eqb w seconds && not_before q.start bucket && is_before q.finish bucket

abbrev pub candle_of : CandleKey × CandleRow → Candle
candle_of ((p, w, bucket), row) = record { time = bucket; row = row }

abbrev pub by_time : Candle → Candle → Bool
by_time x y = ltb_ℤ y.time x.time

abbrev pub by_time_desc : Candle → Candle → Bool
by_time_desc x y = ltb_ℤ x.time y.time

-- The SELECT, with the inner one's order and limit.
unfoldable pub select_candles :
    Text → ℕ → CandlesQuery → ℕ → HashMap CandleKey CandleRow → List Candle
unfolding selects
select_candles pair seconds q limit rows =
    order_by by_time
      (take limit (order_by by_time_desc (map candle_of (filter (selects pair seconds q) rows))))

unfoldable pub get_candles :
    Text → CandlesQuery → HashMap CandleKey CandleRow → Outcome (List Candle)
unfolding clamp_limit
get_candles raw_pair q rows = elim (parse_pair raw_pair) [
  | none ↦ failed (ApiError.bad_request (codes "invalid pair, expected BASE-QUOTE"))
  | some pair ↦ elim (interval_seconds q.interval) [
    | none ↦
        failed (ApiError.bad_request (codes "invalid interval, expected one of 1s/15m/1h/4h/1d/1w"))
    | some seconds ↦ done (
        select_candles (show_pair pair) seconds q
          (clamp_limit (or_else default_candles_limit q.limit)) rows)
  ]
]

-- A NUMERIC column against a bound `i64`.
abbrev pub equals_i64 : ℕ → ℤ → Bool
equals_i64 n a = int_eqb (pos n) a

abbrev pub text_ltb : Text → Text → Bool
text_ltb [] [] = false
text_ltb [] (d ∷ t) = true
text_ltb (c ∷ s) [] = false
text_ltb (c ∷ s) (d ∷ t) = if ltb c d then true else nat_eqb c d && text_ltb s t

abbrev pub text_later : Text × BalanceRow → Text × BalanceRow → Bool
text_later x y = text_ltb y.0 x.0

abbrev pub balance_of_row : (AccountId × Text) × BalanceRow → Text × BalanceRow
balance_of_row ((account_id, currency), row) = (currency, row)

unfoldable pub get_balances :
    AccountId → HashMap (AccountId × Text) BalanceRow → List (Text × BalanceRow)
unfolding as_i64
get_balances account_id rows =
    order_by text_later
      (map balance_of_row (filter (λ r. equals_i64 r.0.0 (as_i64 account_id)) rows))

unfoldable pub get_orders : AccountId → HashMap ℕ OrderRow → List (ℕ × OrderRow)
unfolding as_i64
get_orders account_id rows =
    order_by (λ x y. ltb x.0 y.0) (filter (λ r. equals_i64 r.1.account_id (as_i64 account_id)) rows)
