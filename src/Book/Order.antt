-- ===== src/Book/Order.antt =====
-- The levels of a book stay in the order of their prices.
use cex_matching_engine.Book.Types.{order_type_eqb, limit}
use cex_matching_engine.Prelude.{ℕ, ◌≡◌, refl, sym, subst, nat_eqb, Bool-cases, inl, inr}
use cex_matching_engine.Prelude.BTreeMap
use cex_matching_engine.Prelude.BTreeMap.{IsSorted}
use cex_matching_engine.Market.{AccountId}
use cex_matching_engine.Book.Types.{
  Side, bid, ask, Order, OrderRequest, OrderBook, order_type_eqb, limit,
}
use cex_matching_engine.Book.Levels.{take_dirty_levels}
use cex_matching_engine.Book.Matching.{run_order, rest, rest_in, push_back, add_order, new_order}
use cex_matching_engine.Book.Sides.{facing, own}
use cex_matching_engine.Book.Priority.{run_order-Swept}

pub record IsOrdered (book : OrderBook) : Type 0 where
  pub bids : IsSorted book.bids
  pub asks : IsSorted book.asks

pub facing-IsOrdered : (s : Side) (book : OrderBook) → IsOrdered book → IsSorted (facing s book)
facing-IsOrdered bid book v = v.asks
facing-IsOrdered ask book v = v.bids

pub own-IsOrdered : (s : Side) (book : OrderBook) → IsOrdered book → IsSorted (own s book)
own-IsOrdered bid book v = v.bids
own-IsOrdered ask book v = v.asks

both-IsOrdered :
    (s : Side) (book : OrderBook)
    → IsSorted (facing s book)
    → IsSorted (own s book)
    → IsOrdered book
both-IsOrdered bid book f o = record { bids = o; asks = f }
both-IsOrdered ask book f o = record { bids = f; asks = o }

rest_in-IsOrdered :
    (o : Order) (s : Side) (book : OrderBook)
    → o.side ≡ s
    → IsOrdered book
    → IsOrdered (rest_in o book)
unfolding rest_in push_back
rest_in-IsOrdered o bid book e v =
    rw e (record { bids = BTreeMap.insert-IsSorted o.price _ book.bids v.bids; asks = v.asks })
rest_in-IsOrdered o ask book e v =
    rw e (record { bids = v.bids; asks = BTreeMap.insert-IsSorted o.price _ book.asks v.asks })

rest-IsOrdered : (o : Order) (book : OrderBook) → IsOrdered book → IsOrdered (rest o book)
unfolding rest
rest-IsOrdered o book v =
    let w = rest_in-IsOrdered o o.side book refl v in
    elim (Bool-cases (nat_eqb o.remaining_size 0)) [
      | inl filled ↦ rw filled v
      | inr left ↦ rw left (elim (Bool-cases (order_type_eqb o.order_type limit)) [
        | inl rests ↦ rw rests (record { bids = w.bids; asks = w.asks })
        | inr gone ↦ rw gone v
      ])
    ]

-- `add_order` keeps both sides in order.
pub add_order-IsOrdered :
    (id : ℕ) (a : AccountId) (req : OrderRequest) (book : OrderBook)
    → IsOrdered book
    → IsOrdered (add_order id a req book).1
unfolding add_order take_dirty_levels new_order
add_order-IsOrdered id a req book v =
    let run = run_order id a req book in
    let h = run_order-Swept id a req book (facing-IsOrdered req.side book v) in
    let swept_book =
      both-IsOrdered req.side run.book h.sorted
        (subst IsSorted (sym h.own_side) (own-IsOrdered req.side book v)) in
    let w = rest-IsOrdered run.order run.book swept_book in record { bids = w.bids; asks = w.asks }
