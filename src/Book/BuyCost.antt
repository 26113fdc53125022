-- ===== src/Book/BuyCost.antt =====
-- `market_buy_cost` is what a market buy pays.
use cex_matching_engine.Prelude.{
  ℕ, ◌+◌, ◌-◌, ◌*◌, ◌<◌, ◌≡◌, refl, List, [], ◌∷◌, ◌++◌, map, arith, nat_eqb, sum_of, if◌then◌else◌,
  Bool-cases, inl, inr, sym, ap, ◌∙◌, ltb, u64_mod, min, All, checked_mul, checked_add, add_u64-eq,
  sum_of-append, subst,
}
use Prim.Native.Nat.add
use cex_matching_engine.Prelude.BTreeMap.{IsSorted}
use cex_matching_engine.Market.{AccountId, Pair}
use cex_matching_engine.Reject.{Result, ok, err, invalid_amount}
use cex_matching_engine.Book.Types.{Order, OrderRequest, OrderBook, bid, market, Trade}
use cex_matching_engine.Book.Levels.{level_qty, cost_loop, market_buy_cost}
use cex_matching_engine.Book.Matching.{new_order, trade_of, add_order}
use cex_matching_engine.Book.Fills.{
  Fill, fills, fills-zero, volume, fills-append, sum_of-fills, fill_qty,
}
use cex_matching_engine.Book.Sides.{Level, best_first, facing}
use cex_matching_engine.Book.Reach.{reachable}
use cex_matching_engine.Book.Queue.{fill_trade}
use cex_matching_engine.Book.Priority.{add_order-fills, makers}

-- Every order of a level has the level's price, and their quantities add up within a `u64`.
abbrev pub IsPriced : ℕ → List Order → Type 0
IsPriced p q = All (λ (o : Order). o.price ≡ p) q

abbrev pub AreLevels : List Level → Type 0
AreLevels = All (λ (l : Level). IsPriced l.0 l.1 × (volume l.1 < u64_mod))

-- What a fill costs.
abbrev pub fill_cost : Fill → ℕ
fill_cost f = f.0.price * f.1

pub level_qty-volume : (q : List Order) → volume q < u64_mod → level_qty q ≡ volume q
unfolding level_qty
level_qty-volume [] h = refl
level_qty-volume (o ∷ q) h =
    ground (arith, level_qty-volume q, add_u64-eq o.remaining_size (level_qty q))

-- At one price the cost is the price times the quantity.
cost-of_level :
    (p n : ℕ) (q : List Order)
    → IsPriced p q
    → sum_of fill_cost (fills n q) ≡ p * sum_of fill_qty (fills n q)
unfolding fills
cost-of_level p n [] h = omega arith
cost-of_level p n (m ∷ q) h = elim (Bool-cases (nat_eqb n 0)) [
  | inl none_left ↦ rw none_left (omega arith)
  | inr some_left ↦ rw some_left (
      omega (
        arith,
        ap (λ (x : ℕ). x * min n m.remaining_size) h.0,
        cost-of_level p (n - m.remaining_size) q h.1,
      ))
]

abbrev all_makers : List Level → List Order
all_makers [] = []
all_makers ((p, q) ∷ ls) = q ++ all_makers ls

-- A total that is checked for overflow.
abbrev pub checked_total : ℕ → Result ℕ
checked_total c = if ltb c u64_mod then ok c else err invalid_amount

-- The cost of the fills, level by level.
cost-of_levels :
    (p n : ℕ) (q : List Order) (ls : List Level)
    → IsPriced p q
    → sum_of fill_cost (fills n (all_makers ((p, q) ∷ ls)))
      ≡ p * min n (volume q) + sum_of fill_cost (fills (n - volume q) (all_makers ls))
cost-of_levels p n q ls h =
    ap (sum_of fill_cost) (fills-append n q (all_makers ls))
    ∙ sum_of-append fill_cost (fills n q) (fills (n - volume q) (all_makers ls))
    ∙ ap (λ x. x + sum_of fill_cost (fills (n - volume q) (all_makers ls)))
        (cost-of_level p n q h ∙ ap (λ x. p * x) (sum_of-fills n q))

cost_loop-total :
    (n cost : ℕ) (ls : List Level)
    → cost < u64_mod
    → AreLevels ls
    → cost_loop n cost ls ≡ checked_total (cost + sum_of fill_cost (fills n (all_makers ls)))
unfolding cost_loop fills checked_mul checked_add
cost_loop-total n cost [] h v = ground arith
cost_loop-total n cost ((p, q) ∷ ls) h v = elim (Bool-cases (nat_eqb n 0)) [
  | inl none_left ↦
      let e : n ≡ 0 = ground arith in
      rw none_left
        (ground (arith, ap (λ k. fills k (q ++ all_makers ls)) e, fills-zero (q ++ all_makers ls)))
  | inr some_left ↦
      rw (cost-of_levels p n q ls v.0.0, level_qty-volume q v.0.1)
        (rw some_left (
          ground
            (arith, cost_loop-total (n - min n (volume q)) (cost + p * min n (volume q)) ls, v.1)))
]

reachable-market :
    (t : Order) (ls : List Level) → t.order_type ≡ market → reachable t ls ≡ all_makers ls
unfolding reachable
reachable-market t [] e = refl
reachable-market t ((p, q) ∷ ls) e = ground (arith, reachable-market t ls e)

-- The price of a trade, in the quote currency.
abbrev pub trade_cost : Trade → ℕ
trade_cost t = t.price * t.qty

pub sum_of-trade_cost :
    (pair : Pair) (t : Order) (fs : List Fill)
    → sum_of trade_cost (map (fill_trade pair t) fs) ≡ sum_of fill_cost fs
unfolding trade_of
sum_of-trade_cost pair t [] = refl
sum_of-trade_cost pair t (f ∷ fs) = omega (arith, sum_of-trade_cost pair t fs)

-- Where the asks are in order, each level with its own price on every order and a volume that fits
-- a `u64`, `market_buy_cost` is the exact sum of price times quantity over the trades that the
-- market buy will make, and it is an error exactly where that sum overflows.
pub market_buy_cost-add_order :
    (order_id : ℕ) (account_id : AccountId) (req : OrderRequest) (book : OrderBook)
    → IsSorted book.asks
    → AreLevels book.asks
    → req.side ≡ bid
    → req.order_type ≡ market
    → market_buy_cost req.size book
      ≡ checked_total (sum_of trade_cost (add_order order_id account_id req book).0.trades)
unfolding market_buy_cost new_order
market_buy_cost-add_order order_id account_id req book sorted levels side type =
    let facing_asks : facing req.side book ≡ book.asks = ap (λ s. facing s book) side in
    let best_asks : best_first req.side book ≡ book.asks = ap (λ s. best_first s book) side in
    let t = new_order order_id account_id req in
    let trades =
      (add_order-fills order_id account_id req book (subst IsSorted (sym facing_asks) sorted)).0 in
    cost_loop-total req.size 0 book.asks (omega arith) levels
    ∙ ap checked_total (
        add.zero (sum_of fill_cost (fills req.size (all_makers book.asks)))
        ∙ ap (λ l. sum_of fill_cost (fills req.size l))
            (sym (ap (reachable t) best_asks ∙ reachable-market t book.asks type))
        ∙ sym (sum_of-trade_cost req.pair t (fills req.size (makers order_id account_id req book)))
        ∙ ap (sum_of trade_cost) (sym trades))
