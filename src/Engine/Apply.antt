-- ===== src/Engine/Apply.antt =====
-- engine.rs, `apply`: one command against the engine, its response, and the batch of its events.
use cex_matching_engine.Prelude.{
  ℕ, true, false, not, Option, none, some, List, [], ◌∷◌, ◌++◌, map, if◌then◌else◌, nat_eq, pair_eq,
  add_u64, sub_u64, mul_u64,
}
use cex_matching_engine.Prelude.HashMap
use cex_matching_engine.Market.{AccountId, Currency, Pair, is_valid, market_pair_eq, currency_eq}
use cex_matching_engine.Reject.{Result, ok, err, invalid_pair}
use cex_matching_engine.Book.Types.{
  Order, OrderRequest, Trade, OrderUpdate, MatchResponse, LevelDelta, cancelled,
}
use cex_matching_engine.Ledger.{Ledger, take_dirty, withdraw}
use cex_matching_engine.Command.{
  Command, CommandResponse, PlaceOrderResponse, CancelRequest, Event, EventBatch, trade,
  balance_changed, order_accepted, order_cancelled, order_updated, book_delta,
}
use cex_matching_engine.Engine.State.{Engine, dedup_window, insert_key}
use cex_matching_engine.Engine.Operations.{place_order, deposit, cancel_order}

-- `match_response.trades.iter().map(|t| t.qty).sum()`, and the same of `t.qty * t.price`
unfoldable pub filled_qty : List Trade → ℕ
filled_qty [] = 0
filled_qty (t ∷ trades) = add_u64 t.qty (filled_qty trades)

unfoldable pub total_cost : List Trade → ℕ
total_cost [] = 0
total_cost (t ∷ trades) = add_u64 (mul_u64 t.qty t.price) (total_cost trades)

abbrev pub update_event : Pair → OrderUpdate → Event
update_event pair u = order_updated (record {
  order_id = u.order_id;
  account_id = u.account_id;
  pair = pair;
  filled_qty = u.filled_qty;
  remaining_qty = u.remaining_size;
  status = u.status;
})

abbrev pub delta_event : Pair → LevelDelta → Event
delta_event pair (side, price, qty) =
    book_delta (record { pair = pair; side = side; price = price; qty = qty })

-- The events of an accepted order.
unfoldable pub place_events : AccountId → OrderRequest → MatchResponse → List Event
place_events account_id req res =
    order_accepted (record {
      order_id = res.order_id;
      account_id = account_id;
      pair = req.pair;
      side = req.side;
      order_type = req.order_type;
      price = req.price;
      size = req.size;
    })
    ∷ (map trade res.trades
        ++ (map (update_event req.pair) res.updates ++ map (delta_event req.pair) res.book_deltas))

unfoldable pub place_response : MatchResponse → PlaceOrderResponse
unfolding filled_qty total_cost
place_response res = record {
  order_id = res.order_id;
  filled_qty = filled_qty res.trades;
  total_cost = total_cost res.trades;
}

unfoldable pub cancel_events : CancelRequest → Pair × Order × List LevelDelta → List Event
cancel_events req (pair, order, deltas) =
    order_cancelled req.order_id
    ∷ order_updated (record {
      order_id = order.id;
      account_id = order.account_id;
      pair = pair;
      filled_qty = sub_u64 order.size order.remaining_size;
      remaining_qty = order.remaining_size;
      status = cancelled;
    })
    ∷ map (delta_event pair) deltas

-- What a command answers, the events that it emits so far, and the engine.
abbrev pub Outcome : Type 0
Outcome = CommandResponse × List Event × Engine

unfoldable pub placed : AccountId → OrderRequest → Result MatchResponse × Engine → Outcome
placed account_id req (ok res, e) =
    (CommandResponse.place (ok (place_response res)), place_events account_id req res, e)
placed account_id req (err r, e) = (CommandResponse.place (err r), [], e)

-- The `match` on the command. `none` is a panic.
unfoldable pub dispatch : AccountId → Command → Engine → Option Outcome
dispatch account_id (Command.place req) e = elim (place_order account_id req e) [
  | none ↦ none
  | some r ↦ some (placed account_id req r)
]
dispatch account_id (Command.cancel req) e = elim (cancel_order account_id req e) [
  | none ↦ some (CommandResponse.cancel false, [], e)
  | some (removed, e') ↦ some (CommandResponse.cancel true, cancel_events req removed, e')
]
dispatch account_id (Command.deposit req) e =
    let (r, e') = deposit account_id req e in some (CommandResponse.deposit r, [], e')
dispatch account_id (Command.withdraw req) e =
    let (r, l) = withdraw account_id req.currency req.amount e.ledger in
    some (CommandResponse.withdraw r, [], record e { ledger = l })
dispatch account_id (Command.list_pair pair) e =
    if not (is_valid pair)
    then some (CommandResponse.list_pair (err invalid_pair), [], e)
    else some (
      CommandResponse.list_pair (ok (not (HashMap.contains pair e.listed_pairs))),
      [],
      record e { listed_pairs = HashMap.with_elem pair e.listed_pairs },
    )
dispatch account_id (Command.delist_pair pair) e = some (
  CommandResponse.delist_pair (HashMap.contains pair e.listed_pairs),
  [],
  record e { listed_pairs = HashMap.without pair e.listed_pairs },
)

-- `&engine.ledger.balances[&account_id][&currency]` panics where the entry is not there.
unfoldable pub balance_event : AccountId × Currency → Ledger → Option Event
balance_event (account_id, currency) l = elim (HashMap.get account_id l.balances) [
  | none ↦ none
  | some of_account ↦ elim (HashMap.get currency of_account) [
    | none ↦ none
    | some b ↦ some (
        balance_changed (record {
          account_id = account_id;
          currency = currency;
          available = b.available;
          reserved = b.reserved;
        }))
  ]
]

unfoldable pub balance_events : List (AccountId × Currency) → Ledger → Option (List Event)
balance_events [] l = some []
balance_events (k ∷ keys) l = elim (balance_event k l) [
  | none ↦ none
  | some event ↦ elim (balance_events keys l) [ none ↦ none | some events ↦ some (event ∷ events) ]
]

-- No batch and no sequence number for a command that changed nothing observable.
unfoldable pub stamp :
    CommandResponse → List Event → Engine → (CommandResponse × Option EventBatch) × Engine
stamp response [] e = ((response, none), e)
stamp response (event ∷ events) e = (
  (response, some (record { seq = e.next_seq; events = event ∷ events })),
  record e { next_seq = add_u64 e.next_seq 1 },
)

unfoldable pub emit : Outcome → Option ((CommandResponse × Option EventBatch) × Engine)
emit (response, events, e) =
    let (keys, l) = take_dirty e.ledger in
    elim (balance_events keys l) [
      | none ↦ none
      | some changed ↦ some (stamp response (events ++ changed) (record e { ledger = l }))
    ]

unfoldable pub run_command :
    AccountId → Command → Engine → Option ((CommandResponse × Option EventBatch) × Engine)
run_command account_id command e = elim (dispatch account_id command e) [
  | none ↦ none
  | some outcome ↦ emit outcome
]

unfoldable pub apply :
    AccountId → ℕ → Command → Engine → Option ((CommandResponse × Option EventBatch) × Engine)
apply account_id client_order_id command e =
    let (fresh, dedup) = insert_key dedup_window account_id client_order_id e.dedup in
    let run = run_command account_id command (record e { dedup = dedup }) in
    if fresh then run else some ((CommandResponse.duplicate, none), record e { dedup = dedup })
