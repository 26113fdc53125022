-- ===== src/Book/Cancelling.antt =====
-- `cancel_order` keeps a book in order and does not cross it.
use cex_matching_engine.Prelude.{
  ℕ, ◌≡◌, arith, none, some, List, [], ◌∷◌, subst, nat_eqb, nat_eqb_iff, Option-cases, Bool-cases,
  inl, inr, true, nat_eq,
}
use cex_matching_engine.Prelude.HashMap
use cex_matching_engine.Prelude.BTreeMap
use cex_matching_engine.Market.{AccountId}
use cex_matching_engine.Book.Types.{Side, bid, ask, Order, OrderBook, OrderLocation, LevelDelta}
use cex_matching_engine.Book.Levels.{take_dirty_levels, levels_of}
use cex_matching_engine.Book.Cancel.{put_queue, forget_order, cancel_order, position, remove_at}
use cex_matching_engine.Book.Order.{IsOrdered}
use cex_matching_engine.Book.Sides.{Level}
use cex_matching_engine.Book.Crossing.{IsUncrossed, has_price, has_price-insert}

put_queue-IsOrdered :
    (s : Side) (p : ℕ) (q : List Order) (book : OrderBook)
    → IsOrdered book
    → IsOrdered (put_queue s p q book)
unfolding put_queue
put_queue-IsOrdered bid p [] book v = record {
  bids = BTreeMap.remove-IsSorted p book.bids v.bids;
  asks = v.asks;
}
put_queue-IsOrdered bid p (o ∷ q) book v = record {
  bids = BTreeMap.insert-IsSorted p (o ∷ q) book.bids v.bids;
  asks = v.asks;
}
put_queue-IsOrdered ask p [] book v = record {
  bids = v.bids;
  asks = BTreeMap.remove-IsSorted p book.asks v.asks;
}
put_queue-IsOrdered ask p (o ∷ q) book v = record {
  bids = v.bids;
  asks = BTreeMap.insert-IsSorted p (o ∷ q) book.asks v.asks;
}

forget_order-IsOrdered :
    (id : ℕ) (s : Side) (p : ℕ) (r : Order × List Order) (book : OrderBook)
    → IsOrdered book
    → IsOrdered (forget_order id s p r book).2
unfolding forget_order take_dirty_levels
forget_order-IsOrdered id s p r book v =
    let w = put_queue-IsOrdered s p r.1 book v in record { bids = w.bids; asks = w.asks }

has_price-get :
    (p : ℕ) (q : List Order) (m : List Level) → BTreeMap.get p m ≡ some q → has_price p m ≡ true
unfolding BTreeMap.get
has_price-get p q [] h = cc
has_price-get p q (l ∷ m) h = ground (arith, has_price-get p q m)

has_price-remove :
    (p k : ℕ) (m : List Level) → has_price p (BTreeMap.remove k m) ≡ true → has_price p m ≡ true
unfolding BTreeMap.remove
has_price-remove p k [] h = h
has_price-remove p k (l ∷ m) h = ground (arith, has_price-remove p k m)

-- The queue that is put stands at a price that the book had.
put_queue-IsUncrossed :
    (s : Side) (k : ℕ) (old new : List Order) (book : OrderBook)
    → BTreeMap.get k (levels_of s book) ≡ some old
    → IsUncrossed book
    → IsUncrossed (put_queue s k new book)
unfolding put_queue levels_of
put_queue-IsUncrossed bid k old [] book g u p q hp hq = u p q (has_price-remove p k book.bids hp) hq
put_queue-IsUncrossed bid k old (o ∷ new) book g u p q hp hq = ground (
  arith,
  has_price-insert p k (o ∷ new) book.bids,
  has_price-get k old book.bids g,
  nat_eqb_iff p k,
  u p q,
)
put_queue-IsUncrossed ask k old [] book g u p q hp hq = u p q hp (has_price-remove q k book.asks hq)
put_queue-IsUncrossed ask k old (o ∷ new) book g u p q hp hq = ground (
  arith,
  has_price-insert q k (o ∷ new) book.asks,
  has_price-get k old book.asks g,
  nat_eqb_iff q k,
  u p q,
)

forget_order-IsUncrossed :
    (id : ℕ) (s : Side) (k : ℕ) (old : List Order) (r : Order × List Order) (book : OrderBook)
    → BTreeMap.get k (levels_of s book) ≡ some old
    → IsUncrossed book
    → IsUncrossed (forget_order id s k r book).2
unfolding forget_order take_dirty_levels
forget_order-IsUncrossed id s k old r book g u = put_queue-IsUncrossed s k old r.1 book g u

-- A cancellation that succeeds forgets an order of a level that the book has.
pub record Forgets (id : ℕ) (book : OrderBook) (r : Order × List LevelDelta × OrderBook)
    : Type 0 where
  pub side : Side
  pub price : ℕ
  pub old : List Order
  pub index : ℕ
  pub rest : Order × List Order
  pub found : BTreeMap.get price (levels_of side book) ≡ some old
  pub taken : remove_at index old ≡ some rest
  pub result : forget_order id side price rest book ≡ r

module _ (a : AccountId) (id : ℕ) (book : OrderBook) (r : Order × List LevelDelta × OrderBook)
    (h : cancel_order a id book ≡ some r) where
  at_queue :
      (loc : OrderLocation) (old : List Order)
      → HashMap.get id book.order_index ≡ some loc
      → nat_eqb a loc.owner ≡ true
      → BTreeMap.get loc.price (levels_of loc.side book) ≡ some old
      → Forgets id book r
  unfolding cancel_order
  at_queue loc old located mine found = elim (Option-cases (position id old)) [
    | inl absent ↦ let no : cancel_order a id book ≡ none = ground arith in cc
    | inr (i, here) ↦ elim (Option-cases (remove_at i old)) [
      | inl absent ↦ let no : cancel_order a id book ≡ none = ground arith in cc
      | inr (rest, removed) ↦ record {
        side = loc.side;
        price = loc.price;
        old = old;
        index = i;
        rest = rest;
        found = found;
        taken = removed;
        result = ground arith;
      }
    ]
  ]

  pub cancel_order-Forgets : Forgets id book r
  unfolding cancel_order
  cancel_order-Forgets = elim (Option-cases (HashMap.get id book.order_index)) [
    | inl absent ↦ let no : cancel_order a id book ≡ none = ground arith in cc
    | inr (loc, located) ↦ elim (Bool-cases (nat_eqb a loc.owner)) [
      | inr other ↦ let no : cancel_order a id book ≡ none = ground arith in cc
      | inl mine ↦ elim (Option-cases (BTreeMap.get loc.price (levels_of loc.side book))) [
        | inl absent ↦ let no : cancel_order a id book ≡ none = ground arith in cc
        | inr (old, found) ↦ at_queue loc old located mine found
      ]
    ]
  ]

  -- A cancellation that succeeds keeps a book in order.
  pub cancel_order-IsOrdered : IsOrdered book → IsOrdered r.2
  cancel_order-IsOrdered v =
      let f = cancel_order-Forgets in
      subst (λ (x : Order × List LevelDelta × OrderBook). IsOrdered x.2) f.result
        (forget_order-IsOrdered id f.side f.price f.rest book v)

  -- A cancellation that succeeds leaves no crossed book where there was none.
  pub cancel_order-IsUncrossed : IsUncrossed book → IsUncrossed r.2
  cancel_order-IsUncrossed u =
      let f = cancel_order-Forgets in
      subst (λ (x : Order × List LevelDelta × OrderBook). IsUncrossed x.2) f.result
        (forget_order-IsUncrossed id f.side f.price f.old f.rest book f.found u)
