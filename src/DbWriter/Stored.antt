-- ===== src/DbWriter/Stored.antt =====
-- bin/db_writer.rs: which trades are stored after a run over events, and what a run over events whose
-- trades are stored does.
use cex_matching_engine.Prelude.{
  refl, ℕ, ◌≡◌, ◌≢◌, none, some, List, [], ◌∷◌, arith, Option-cases, ◌∙◌, inl, ap, Option, inr,
}
use cex_matching_engine.Prelude.Int.{ℤ}
use cex_matching_engine.Prelude.HashMap
use cex_matching_engine.Prelude.HashMap.{HashMap}
use cex_matching_engine.Prelude.Text.{Text, text_eq, text_eqb_iff}
use cex_matching_engine.Market.{AccountId}
use cex_matching_engine.Command.{
  Event, trade, balance_changed, order_accepted, order_cancelled, order_updated, book_delta,
}
use cex_matching_engine.DbWriter.Tables.{
  Database, BalanceRow, OrderRow, set_row, insert_order, update_order, cancelled_row, updated_row,
  apply_event, apply_trade, trade_row, apply_all, millis_of, TradeRow,
}

abbrev pub Events : Type 0
Events = List (Text × Event)

-- The balances after the events, and the orders.
unfoldable pub balances_step :
    Event → HashMap (AccountId × Text) BalanceRow → HashMap (AccountId × Text) BalanceRow
balances_step (balance_changed b) m = set_row b m
balances_step (trade t) m = m
balances_step (order_accepted o) m = m
balances_step (order_cancelled o) m = m
balances_step (order_updated o) m = m
balances_step (book_delta d) m = m

unfoldable pub orders_step : Event → HashMap ℕ OrderRow → HashMap ℕ OrderRow
orders_step (balance_changed b) m = m
orders_step (trade t) m = m
orders_step (order_accepted o) m = insert_order o m
orders_step (order_cancelled id) m = update_order id cancelled_row m
orders_step (order_updated u) m = update_order u.order_id (updated_row u) m
orders_step (book_delta d) m = m

unfoldable pub balances_after :
    Events → HashMap (AccountId × Text) BalanceRow → HashMap (AccountId × Text) BalanceRow
balances_after [] m = m
balances_after ((id, e) ∷ es) m = balances_after es (balances_step e m)

unfoldable pub orders_after : Events → HashMap ℕ OrderRow → HashMap ℕ OrderRow
orders_after [] m = m
orders_after ((id, e) ∷ es) m = orders_after es (orders_step e m)

-- The event is no trade, or its row is there.
abbrev pub IsStored : Text → Event → HashMap Text TradeRow → Type 0
IsStored id (trade t) trades = HashMap.get id trades ≢ none
IsStored id _ trades = Unit

abbrev pub AllStored : Events → HashMap Text TradeRow → Type 0
AllStored [] trades = Unit
AllStored ((id, e) ∷ es) trades = IsStored id e trades × AllStored es trades

-- What one event leaves of the tables.
apply_event-others :
    (id : Text) (now : ℤ) (e : Event) (db db' : Database)
    → apply_event id now e db ≡ some db'
    → (db'.balances ≡ balances_step e db.balances) × (db'.orders ≡ orders_step e db.orders)
unfolding apply_event apply_trade balances_step orders_step
apply_event-others id now e db db' h = ground arith

apply_event-keeps :
    (id key : Text) (now : ℤ) (e : Event) (db db' : Database)
    → apply_event id now e db ≡ some db'
    → HashMap.get key db.trades ≢ none
    → HashMap.get key db'.trades ≢ none
unfolding apply_event apply_trade
apply_event-keeps id key now (trade t) db db' h present = ground (
  arith,
  HashMap.get-insert key id (trade_row (millis_of id now) t) db.trades,
  text_eqb_iff key id,
)
apply_event-keeps id key now (balance_changed b) db db' h present = ground arith
apply_event-keeps id key now (order_accepted o) db db' h present = ground arith
apply_event-keeps id key now (order_cancelled o) db db' h present = ground arith
apply_event-keeps id key now (order_updated u) db db' h present = ground arith
apply_event-keeps id key now (book_delta d) db db' h present = ground arith

apply_event-IsStored :
    (id : Text) (now : ℤ) (e : Event) (db db' : Database)
    → apply_event id now e db ≡ some db'
    → IsStored id e db'.trades
unfolding apply_event apply_trade
apply_event-IsStored id now (trade t) db db' h =
    ground (
      arith,
      HashMap.get-insert id id (trade_row (millis_of id now) t) db.trades,
      text_eqb_iff id id,
    )
apply_event-IsStored id now (balance_changed b) db db' h = tt
apply_event-IsStored id now (order_accepted o) db db' h = tt
apply_event-IsStored id now (order_cancelled o) db db' h = tt
apply_event-IsStored id now (order_updated u) db db' h = tt
apply_event-IsStored id now (book_delta d) db db' h = tt

-- The run of a list, taken apart at its first event.
pub apply_all-cons :
    (clock : Text → ℤ) (id : Text) (e : Event) (es : Events) (db last : Database)
    → apply_all clock ((id, e) ∷ es) db ≡ some last
    → (db' : Database) × (apply_event id (clock id) e db ≡ some db')
      × (apply_all clock es db' ≡ some last)
unfolding apply_all
apply_all-cons clock id e es db last h = elim (Option-cases (apply_event id (clock id) e db)) [
  | inl failed ↦ let impossible : ◌≡◌ {A = Option Database} none (some last) = ground arith in cc
  | inr (db', ran) ↦ (db', ran, ground arith)
]

apply_all-keeps :
    (clock : Text → ℤ) (es : Events) (key : Text) (db last : Database)
    → apply_all clock es db ≡ some last
    → HashMap.get key db.trades ≢ none
    → HashMap.get key last.trades ≢ none
apply_all-keeps clock [] key db last h present = unfold apply_all in ground arith
apply_all-keeps clock ((id, e) ∷ es) key db last h present =
    let (db', ran, later) = apply_all-cons clock id e es db last h in
    apply_all-keeps clock es key db' last later
      (apply_event-keeps id key (clock id) e db db' ran present)

IsStored-later :
    (clock : Text → ℤ) (es : Events) (id : Text) (e : Event) (db last : Database)
    → apply_all clock es db ≡ some last
    → IsStored id e db.trades
    → IsStored id e last.trades
IsStored-later clock es id (trade t) db last h stored = apply_all-keeps clock es id db last h stored
IsStored-later clock es id (balance_changed b) db last h stored = tt
IsStored-later clock es id (order_accepted o) db last h stored = tt
IsStored-later clock es id (order_cancelled o) db last h stored = tt
IsStored-later clock es id (order_updated u) db last h stored = tt
IsStored-later clock es id (book_delta d) db last h stored = tt

pub apply_all-AllStored :
    (clock : Text → ℤ) (es : Events) (db last : Database)
    → apply_all clock es db ≡ some last
    → AllStored es last.trades
apply_all-AllStored clock [] db last h = tt
apply_all-AllStored clock ((id, e) ∷ es) db last h =
    let (db', ran, later) = apply_all-cons clock id e es db last h in
    (
      IsStored-later clock es id e db' last later (apply_event-IsStored id (clock id) e db db' ran),
      apply_all-AllStored clock es db' last later,
    )

pub apply_all-others :
    (clock : Text → ℤ) (es : Events) (db last : Database)
    → apply_all clock es db ≡ some last
    → (last.balances ≡ balances_after es db.balances) × (last.orders ≡ orders_after es db.orders)
unfolding balances_after orders_after
apply_all-others clock [] db last h = unfold apply_all in ground arith
apply_all-others clock ((id, e) ∷ es) db last h =
    let (db', ran, later) = apply_all-cons clock id e es db last h in
    let step = apply_event-others id (clock id) e db db' ran in
    let rest = apply_all-others clock es db' last later in
    (rest.0 ∙ ap (balances_after es) step.0, rest.1 ∙ ap (orders_after es) step.1)

abbrev pub with_others :
    Database → HashMap (AccountId × Text) BalanceRow → HashMap ℕ OrderRow → Database
with_others db balances orders = record db { balances = balances; orders = orders }

-- A second delivery runs to its end and leaves the trades and the candles alone.
pub apply_all-again :
    (clock : Text → ℤ) (es : Events) (db : Database)
    → AllStored es db.trades
    → apply_all clock es db
      ≡ some (with_others db (balances_after es db.balances) (orders_after es db.orders))
unfolding apply_all apply_event apply_trade balances_after orders_after balances_step orders_step
apply_all-again clock [] db stored = refl
apply_all-again clock ((id, trade t) ∷ es) db stored =
    elim (Option-cases (HashMap.get id db.trades)) [
      | inl missing ↦ absurd (stored.0 missing)
      | inr (row, there) ↦ rw (there, apply_all) (apply_all-again clock es db stored.1)
    ]
apply_all-again clock ((id, balance_changed b) ∷ es) db stored =
    apply_all-again clock es (record db { balances = set_row b db.balances }) stored.1
apply_all-again clock ((id, order_accepted o) ∷ es) db stored =
    apply_all-again clock es (record db { orders = insert_order o db.orders }) stored.1
apply_all-again clock ((id, order_cancelled o) ∷ es) db stored =
    apply_all-again clock es (record db { orders = update_order o cancelled_row db.orders })
      stored.1
apply_all-again clock ((id, order_updated u) ∷ es) db stored =
    apply_all-again clock es
      (record db { orders = update_order u.order_id (updated_row u) db.orders }) stored.1
apply_all-again clock ((id, book_delta d) ∷ es) db stored = apply_all-again clock es db stored.1
