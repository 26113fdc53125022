-- ===== src/Engine/Operations.antt =====
-- engine.rs, `impl Engine`: `place_order`, `deposit` and `cancel_order`. A panic is `none`.
use cex_matching_engine.Prelude.{
  ◌>>=◌, ℕ, Bool, true, ◌&&◌, ◌||◌, not, Option, none, some, List, [], ◌∷◌, ltb, if◌then◌else◌,
  nat_eq, add_u64, sub_u64, mul_u64, checked_add, checked_mul,
}
use cex_matching_engine.Prelude.HashMap
use cex_matching_engine.Prelude.HashMap.{HashMap}
use cex_matching_engine.Market.{AccountId, Pair, is_valid, market_pair_eq}
use cex_matching_engine.Reject.{
  Result, ok, err, invalid_amount, invalid_pair, deposit_limit_exceeded, price_out_of_band,
  self_trade,
}
use cex_matching_engine.Book.Types.{
  bid, ask, side_eqb, market, limit, order_type_eqb, Order, OrderRequest, Trade, MatchResponse,
  OrderBook, LevelDelta, new_book,
}
use cex_matching_engine.Book.Levels.{market_buy_cost, would_self_trade}
use cex_matching_engine.Book.Matching.{add_order}
use cex_matching_engine.Book.Cancel
use cex_matching_engine.Ledger.{Ledger, settle}
use cex_matching_engine.Ledger
use cex_matching_engine.Command.{DepositRequest, CancelRequest}
use cex_matching_engine.Engine.State.{Limits, Engine, price_band}

abbrev pub is_market : OrderRequest → Bool
is_market req = order_type_eqb req.order_type market

abbrev pub is_limit : OrderRequest → Bool
is_limit req = order_type_eqb req.order_type limit

-- The price band around the last trade, where both are there.
unfoldable pub in_band : Option ℕ → Option ℕ → ℕ → Bool
in_band (some bps) (some last) price =
    let (low, high) = price_band last bps in not (ltb price low || ltb high price)
in_band _ _ price = true

-- The checks against the book of the pair.
unfoldable pub check_book : Limits → AccountId → OrderRequest → OrderBook → Result (Unit {0})
unfolding in_band
check_book limits account_id req book =
    if is_limit req && not (in_band limits.price_band_bps book.last_trade_price req.price)
    then err price_out_of_band
    else if limits.prevent_self_trade && would_self_trade account_id req book
    then err self_trade
    else ok tt

unfoldable pub check_order : AccountId → OrderRequest → Engine → Result (Unit {0})
check_order account_id req e =
    if not (is_valid req.pair) || not (HashMap.contains req.pair e.listed_pairs)
    then err invalid_pair
    else elim (HashMap.get req.pair e.books) [
      | none ↦ ok tt
      | some book ↦ check_book e.limits account_id req book
    ]

-- What a bid reserves: a market buy its exact cost, a limit order its price times its size.
unfoldable pub quote_amount : OrderRequest → Engine → Result ℕ
quote_amount req e =
    if is_market req && side_eqb req.side bid
    then elim (HashMap.get req.pair e.books) [
      | none ↦ ok 0
      | some book ↦ market_buy_cost req.size book
    ]
    else elim (checked_mul req.price req.size) [ none ↦ err invalid_amount | some a ↦ ok a ]

unfoldable pub reserve_for : AccountId → OrderRequest → ℕ → Ledger → Result (Unit {0}) × Ledger
reserve_for account_id req amount l = elim req.side [
  | bid ↦ Ledger.reserve account_id req.pair.quote amount l
  | ask ↦ Ledger.reserve account_id req.pair.base req.size l
]

-- The makers that a command filled: they are out of the book's index.
unfoldable pub drop_routes : OrderBook → List Trade → HashMap ℕ Pair → HashMap ℕ Pair
drop_routes book [] routes = routes
drop_routes book (t ∷ trades) routes = drop_routes book trades (
    if HashMap.contains_key t.maker_id book.order_index
    then routes
    else HashMap.remove t.maker_id routes)

unfoldable pub route : ℕ → Pair → OrderBook → List Trade → HashMap ℕ Pair → HashMap ℕ Pair
route order_id pair book trades routes = drop_routes book trades (
    if HashMap.contains_key order_id book.order_index
    then HashMap.insert order_id pair routes
    else routes)

unfoldable pub settle_all : Pair → List Trade → Ledger → Option Ledger
settle_all pair [] l = some l
settle_all pair (t ∷ trades) l = elim (settle pair t l) [
  | none ↦ none
  | some l' ↦ settle_all pair trades l'
]

-- What a limit buy reserved beyond the price it got, as a `u64`.
unfoldable pub surplus : ℕ → List Trade → ℕ
surplus price [] = 0
surplus price (t ∷ trades) = add_u64 (mul_u64 (sub_u64 price t.price) t.qty) (surplus price trades)

-- The two releases at the end of `place_order`; the result of the first is not looked at.
unfoldable pub release_rest :
    AccountId → OrderRequest → MatchResponse → Ledger → Result (Unit {0}) × Ledger
release_rest account_id req res l =
    let unsold =
      if (is_market req && side_eqb req.side ask) && ltb 0 res.taker_remaining
      then (Ledger.release account_id req.pair.base res.taker_remaining l).1
      else l in
    let saved = surplus req.price res.trades in
    if (side_eqb req.side bid && is_limit req) && ltb 0 saved
    then Ledger.release account_id req.pair.quote saved unsold
    else (ok tt, unsold)

-- The engine once the order is matched, with the ledger not yet settled.
unfoldable pub matched : AccountId → OrderRequest → Engine → MatchResponse × Engine
matched account_id req e =
    let (res, book) =
      add_order e.next_order_id account_id req (HashMap.get_or new_book req.pair e.books) in
    (
      res,
      record e {
        next_order_id = add_u64 e.next_order_id 1;
        books = HashMap.insert req.pair book e.books;
        order_pair = route e.next_order_id req.pair book res.trades e.order_pair;
      },
    )

unfoldable pub settled :
    AccountId → OrderRequest → MatchResponse → Engine → Option (Result MatchResponse × Engine)
settled account_id req res e = elim (settle_all req.pair res.trades e.ledger) [
  | none ↦ none
  | some l ↦
      let (released, l') = release_rest account_id req res l in
      some (elim released [ err r ↦ err r | ok _ ↦ ok res ], record e { ledger = l' })
]

unfoldable pub match_and_settle :
    AccountId → OrderRequest → Engine → Option (Result MatchResponse × Engine)
match_and_settle account_id req e =
    let (res, e') = matched account_id req e in settled account_id req res e'

unfoldable pub after_reserve :
    AccountId → OrderRequest → Result (Unit {0}) → Engine → Option (Result MatchResponse × Engine)
after_reserve account_id req (err r) e = some (err r, e)
after_reserve account_id req (ok _) e = match_and_settle account_id req e

-- The amount is worked out after the checks and before anything is written.
unfoldable pub place_order :
    AccountId → OrderRequest → Engine → Option (Result MatchResponse × Engine)
place_order account_id req e = elim (check_order account_id req e) [
  | err r ↦ some (err r, e)
  | ok _ ↦ elim (quote_amount req e) [
    | err r ↦ some (err r, e)
    | ok amount ↦
        let (reserved, l) = reserve_for account_id req amount e.ledger in
        after_reserve account_id req reserved (record e { ledger = l })
  ]
]

unfoldable pub deposit : AccountId → DepositRequest → Engine → Result ℕ × Engine
deposit account_id req e =
    elim (checked_add (Ledger.held account_id req.currency e.ledger) req.amount) [
      | none ↦ (err invalid_amount, e)
      | some after ↦
          let (available, l) = Ledger.deposit req.currency account_id req.amount e.ledger in
          if ltb (e.limits.deposit_ceiling req.currency) after
          then (err deposit_limit_exceeded, e)
          else (ok available, record e { ledger = l })
    ]

-- What a removed order had reserved.
unfoldable pub refund : Pair → Order → Ledger → Ledger
refund pair order l = elim order.side [
  | bid ↦
      (Ledger.release order.account_id pair.quote (mul_u64 order.remaining_size order.price) l).1
  | ask ↦ (Ledger.release order.account_id pair.base order.remaining_size l).1
]

unfoldable pub cancelled :
    ℕ
    → Pair
    → Order × List LevelDelta × OrderBook
    → Engine
    → (Pair × Order × List LevelDelta) × Engine
cancelled order_id pair (order, deltas, book) e = (
  (pair, order, deltas),
  record e {
    books = HashMap.insert pair book e.books;
    ledger = refund pair order e.ledger;
    order_pair = HashMap.remove order_id e.order_pair;
  },
)

-- `None` leaves the engine as it was.
unfoldable pub cancel_order :
    AccountId → CancelRequest → Engine → Option ((Pair × Order × List LevelDelta) × Engine)
cancel_order account_id req e = do
  pair ← HashMap.get req.order_id e.order_pair
  book ← HashMap.get pair e.books
  removed ← Cancel.cancel_order account_id req.order_id book
  some (cancelled req.order_id pair removed e)
