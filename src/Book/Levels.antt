-- ===== src/Book/Levels.antt =====
-- book.rs: reading the levels of a book. `take_dirty_levels`, `market_buy_cost` and
-- `would_self_trade`.
use cex_matching_engine.Prelude.{
  ℕ, ◌-◌, min, Bool, true, false, ◌||◌, Option, none, some, List, [], ◌∷◌, map, reverse, leb,
  nat_eqb, if◌then◌else◌, add_u64, checked_add, checked_mul, saturating_sub,
}
use cex_matching_engine.Prelude.BTreeMap
use cex_matching_engine.Prelude.BTreeMap.{BTreeMap}
use cex_matching_engine.Market.{AccountId}
use cex_matching_engine.Reject.{Result, ok, err, invalid_amount, RejectReason, ◌>>=◌}
use cex_matching_engine.Book.Types.{
  Side, bid, ask, market, order_type_eqb, Order, OrderRequest, LevelKey, LevelDelta, OrderBook,
}

-- `level.iter().map(|o| o.remaining_size).sum()`, which wraps
unfoldable pub level_qty : List Order → ℕ
level_qty [] = 0
level_qty (o ∷ level) = add_u64 o.remaining_size (level_qty level)

-- `self.asks.first_key_value()` for a bid, `self.bids.last_key_value()` for an ask
unfoldable pub best_level : Side → OrderBook → Option (ℕ × List Order)
best_level bid book = BTreeMap.first_key_value book.asks
best_level ask book = BTreeMap.last_key_value book.bids

unfoldable pub levels_of : Side → OrderBook → BTreeMap (List Order)
levels_of bid book = book.bids
levels_of ask book = book.asks

-- The current quantity at a level, 0 where there is none.
unfoldable pub qty_at : Side → ℕ → OrderBook → ℕ
unfolding levels_of
qty_at side price book = elim (BTreeMap.get price (levels_of side book)) [
  | none ↦ 0
  | some level ↦ level_qty level
]

-- `take_dirty_levels`: the set is drained in an unspecified order.
unfoldable pub take_dirty_levels : OrderBook → List LevelDelta × OrderBook
take_dirty_levels book = (map delta book.dirty_levels, record book { dirty_levels = [] })
  where
    delta : LevelKey → LevelDelta
    delta (side, price) = (side, price, qty_at side price book)

abbrev ok_or {ℓ} : {A : Type ℓ} → Option A → RejectReason → Result A
ok_or none e = err e
ok_or (some a) e = ok a

-- The loop of `market_buy_cost`, over the levels that are left.
unfoldable pub cost_loop : ℕ → ℕ → BTreeMap (List Order) → Result ℕ
cost_loop remaining cost [] = ok cost
cost_loop remaining cost ((price, level) ∷ levels) =
    let take = min remaining (level_qty level) in
    let next = λ (cost' : ℕ). cost_loop (remaining - take) cost' levels in
    let walk : Result ℕ = do
      level_cost ← ok_or (checked_mul price take) invalid_amount
      cost' ← ok_or (checked_add cost level_cost) invalid_amount
      next cost'
    in if nat_eqb remaining 0 then ok cost else walk

unfoldable pub market_buy_cost : ℕ → OrderBook → Result ℕ
unfolding cost_loop
market_buy_cost size book = cost_loop size 0 book.asks

-- What the scan of one level ends with: an answer, or the size that is left.
pub data Scan : Type 0 where
  answer : Bool → Scan
  go_on : ℕ → Scan

unfoldable pub scan_level : AccountId → ℕ → List Order → Scan
scan_level account_id remaining [] = go_on remaining
scan_level account_id remaining (resting ∷ level) =
    let left = saturating_sub remaining resting.remaining_size in
    let later = scan_level account_id left level in
    if nat_eqb resting.account_id account_id
    then answer true
    else if nat_eqb left 0
    then answer false
    else later

unfoldable pub scan : AccountId → (ℕ → Bool) → ℕ → List (ℕ × List Order) → Bool
scan account_id crosses remaining [] = false
scan account_id crosses remaining ((price, level) ∷ levels) =
    let result : Bool = elim (scan_level account_id remaining level) [
      | answer b ↦ b
      | go_on left ↦ scan account_id crosses left levels
    ] in
    if crosses price then result else false

unfoldable pub would_self_trade : AccountId → OrderRequest → OrderBook → Bool
would_self_trade account_id req book = elim req.side [
  | bid ↦ scan account_id (λ p. any_price || leb p req.price) req.size book.asks
  | ask ↦ scan account_id (λ p. any_price || leb req.price p) req.size (reverse book.bids)
]
  where
    any_price : Bool
    any_price = order_type_eqb req.order_type market
