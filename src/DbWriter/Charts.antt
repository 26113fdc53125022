-- ===== src/DbWriter/Charts.antt =====
-- bin/db_writer.rs: the candles against the trades that are stored.
use mathlib.Core.Option.{some-injective}
use cex_matching_engine.Prelude.{
  ◌≡◌, Option, none, some, List, [], ◌∷◌, ◌++◌, if◌then◌else◌, arith, inl, inr, Option-cases,
  Bool-cases, Bool, sym, ◌∙◌, subst,
}
use cex_matching_engine.Prelude.Int.{ℤ, quot, as_i64}
use cex_matching_engine.Prelude.HashMap
use cex_matching_engine.Prelude.HashMap.{HashMap}
use cex_matching_engine.Prelude.Text.{Text, text_eq}
use cex_matching_engine.Market.Symbol.{show_pair}
use cex_matching_engine.Book.Types.{Trade}
use cex_matching_engine.Candle.{interval_widths}
use cex_matching_engine.Command.{
  Event, trade, balance_changed, order_accepted, order_cancelled, order_updated, book_delta,
}
use cex_matching_engine.DbWriter.Tables.{
  Database, CandleRow, CandleKey, TradeRow, candle_eq, upsert_widths, apply_trade, apply_event,
  apply_all, trade_row, millis_of,
}
use cex_matching_engine.DbWriter.Prints.{Print, Charted, candle_after-Charted}
use cex_matching_engine.DbWriter.Upserts.{lands, upsert_widths-Upserted}
use cex_matching_engine.DbWriter.Stored.{Events, apply_all-cons}

-- The trade is in the bucket of the candle.
abbrev pub in_bucket : CandleKey → TradeRow → Bool
in_bucket k row = lands k row.pair (quot row.created_at 1000) interval_widths

abbrev pub print_of : TradeRow → Print
print_of row = record { price = as_i64 row.price; qty = as_i64 row.qty }

-- The trades in the bucket, in the order in which they were stored.
abbrev pub prints : CandleKey → HashMap Text TradeRow → List Print
prints k [] = []
prints k ((id, row) ∷ rows) =
    if in_bucket k row then print_of row ∷ prints k rows else prints k rows

-- Every candle is the summary of the trades in its bucket, and there is none for an empty bucket.
abbrev pub IsCharted : Database → Type 0
IsCharted db = (k : CandleKey) → Charted (prints k db.trades) (HashMap.get k db.candles)

prints-insert :
    (k : CandleKey) (id : Text) (row : TradeRow) (rows : HashMap Text TradeRow)
    → HashMap.get id rows ≡ none
    → prints k (HashMap.insert id row rows)
      ≡ (if in_bucket k row then prints k rows ++ print_of row ∷ [] else prints k rows)
unfolding HashMap.get HashMap.insert
prints-insert k id row [] new = ground arith
prints-insert k id row ((j, old) ∷ rows) new = elim (Bool-cases (text_eq.same id j)) [
  | inl same ↦ absurd (let no : ◌≡◌ {A = Option TradeRow} (some old) none = ground arith in cc)
  | inr other ↦
      let ih = prints-insert k id row rows (ground arith) in
      elim (Bool-cases (in_bucket k old)) [
        | inl here ↦ rw other (rw here (rw ih (ground arith)))
        | inr there ↦ rw other (rw there ih)
      ]
]

module _ (id : Text) (now : ℤ) (t : Trade) (db : Database) where
  abbrev millis : ℤ
  millis = millis_of id now

  -- Where the row is new.
  new_trade-IsCharted :
      (candles : HashMap CandleKey CandleRow)
      → HashMap.get id db.trades ≡ none
      → upsert_widths
          (show_pair t.pair)
          (quot millis 1000)
          (as_i64 t.price)
          (as_i64 t.qty)
          interval_widths
          db.candles
        ≡ some candles
      → IsCharted db
      → IsCharted (record db {
        trades = HashMap.insert id (trade_row millis t) db.trades;
        candles = candles;
      })
  unfolding trade_row
  new_trade-IsCharted candles new upserted charted k =
      let grown = prints-insert k id (trade_row millis t) db.trades new in
      elim (upsert_widths-Upserted k (show_pair t.pair) (quot millis 1000) (as_i64 t.price)
        (as_i64 t.qty) interval_widths db.candles candles (ground arith) upserted) [
          | inl kept ↦
              let same : prints k (HashMap.insert id (trade_row millis t) db.trades)
                  ≡ prints k db.trades =
                grown ∙ rw kept.0 in
              subst (λ ps. Charted ps (HashMap.get k candles)) (sym same)
                (subst (λ o. Charted (prints k db.trades) o) (sym kept.1) (charted k))
          | inr (c, inside, adds, sets) ↦
              let more : prints k (HashMap.insert id (trade_row millis t) db.trades)
                  ≡ prints k db.trades ++ print_of (trade_row millis t) ∷ [] =
                grown ∙ rw inside in
              subst (λ ps. Charted ps (HashMap.get k candles)) (sym more)
                (subst (λ o. Charted (prints k db.trades ++ print_of (trade_row millis t) ∷ []) o)
                  (sym sets)
                  (candle_after-Charted (prints k db.trades) (print_of (trade_row millis t))
                    (HashMap.get k db.candles) c (charted k) adds))
        ]

  apply_trade-IsCharted :
      (db' : Database) → apply_trade id now t db ≡ some db' → IsCharted db → IsCharted db'
  unfolding apply_trade
  apply_trade-IsCharted db' e charted = elim (Option-cases (HashMap.get id db.trades)) [
    | inr (row, old) ↦
        let same : db' ≡ db = ground arith in subst (λ d. IsCharted d) (sym same) charted
    | inl new ↦
        elim (Option-cases (
          upsert_widths (show_pair t.pair) (quot millis 1000) (as_i64 t.price) (as_i64 t.qty)
            interval_widths db.candles)) [
              | inl failed ↦
                  absurd (let no : ◌≡◌ {A = Option Database} none (some db') = ground arith in cc)
              | inr (candles, upserted) ↦
                  let same : db' ≡ record db {
                    trades = HashMap.insert id (trade_row millis t) db.trades;
                    candles = candles;
                  } =
                    ground arith in
                  subst (λ d. IsCharted d) (sym same)
                    (new_trade-IsCharted candles new upserted charted)
            ]
  ]

apply_event-IsCharted :
    (id : Text) (now : ℤ) (e : Event) (db db' : Database)
    → apply_event id now e db ≡ some db'
    → IsCharted db
    → IsCharted db'
unfolding apply_event
apply_event-IsCharted id now (trade t) db db' e charted =
    apply_trade-IsCharted id now t db db' e charted
apply_event-IsCharted id now (balance_changed b) db db' e charted =
    subst (λ d. IsCharted d) (some-injective _ _ e) charted
apply_event-IsCharted id now (order_accepted o) db db' e charted =
    subst (λ d. IsCharted d) (some-injective _ _ e) charted
apply_event-IsCharted id now (order_cancelled o) db db' e charted =
    subst (λ d. IsCharted d) (some-injective _ _ e) charted
apply_event-IsCharted id now (order_updated u) db db' e charted =
    subst (λ d. IsCharted d) (some-injective _ _ e) charted
apply_event-IsCharted id now (book_delta d) db db' e charted =
    subst (λ d. IsCharted d) (some-injective _ _ e) charted

-- Where every candle was the summary of the stored trades of its pair in its bucket (the first
-- price, the last, the largest, the least and the volume, in the order in which they were stored,
-- and no candle where there is none), it is so after any events that were applied without an error.
pub apply_all-IsCharted :
    (clock : Text → ℤ) (es : Events) (db db' : Database)
    → apply_all clock es db ≡ some db'
    → IsCharted db
    → IsCharted db'
apply_all-IsCharted clock [] db db' ran charted =
    let same : db ≡ db' = unfold apply_all in ground arith in subst (λ d. IsCharted d) same charted
apply_all-IsCharted clock ((id, e) ∷ es) db db' ran charted =
    let (next, here, later) = apply_all-cons clock id e es db db' ran in
    apply_all-IsCharted clock es next db' later
      (apply_event-IsCharted id (clock id) e db next here charted)
