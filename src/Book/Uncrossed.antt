-- ===== src/Book/Uncrossed.antt =====
-- `add_order` does not cross a book.
use cex_matching_engine.Prelude.{
  ℕ, ◌<◌, ◌≡◌, refl, sym, ap, ◌∙◌, arith, [], ◌∷◌, nat_eqb_iff, true, false, ◌++◌,
}
use cex_matching_engine.Prelude.HashMap
use cex_matching_engine.Prelude.BTreeMap
use cex_matching_engine.Market.{AccountId}
use cex_matching_engine.Book.Types.{Side, bid, ask, Order, OrderBook, OrderRequest}
use cex_matching_engine.Book.Levels.{take_dirty_levels}
use cex_matching_engine.Book.Matching.{run_order, rest, rest_in, push_back, add_order, new_order}
use cex_matching_engine.Book.Reach.{crosses, swept}
use cex_matching_engine.Book.Sides.{facing, own, best_first}
use cex_matching_engine.Book.Priority.{taker, run_order-Swept}
use cex_matching_engine.Book.Order.{IsOrdered, facing-IsOrdered}
use cex_matching_engine.Book.Crossing.{
  IsUncrossed, has_price, has_price-insert, has_price-reverse, has_price-swept, swept-beyond,
  BestFirst, BestFirst-asks, BestFirst-bids,
}

-- Every level that faces the order is out of its reach, where the order has something left.
abbrev Beyond : Order → Side → OrderBook → Type 0
Beyond o s book =
    (q : ℕ) → 0 < o.remaining_size → has_price q (facing s book) ≡ true → crosses o q ≡ false

rest-bid :
    (o : Order) (book : OrderBook)
    → o.side ≡ bid
    → IsUncrossed book
    → Beyond o bid book
    → IsUncrossed (rest o book)
unfolding rest rest_in push_back
rest-bid o book e u b p q hp hq =
    let levels = HashMap.or_else [] (BTreeMap.get o.price book.bids) in
    ground (
      arith,
      e,
      has_price-insert p o.price (levels ++ o ∷ []) book.bids,
      nat_eqb_iff p o.price,
      u p q,
      b q,
    )

rest-ask :
    (o : Order) (book : OrderBook)
    → o.side ≡ ask
    → IsUncrossed book
    → Beyond o ask book
    → IsUncrossed (rest o book)
unfolding rest rest_in push_back
rest-ask o book e u b p q hp hq =
    let levels = HashMap.or_else [] (BTreeMap.get o.price book.asks) in
    ground (
      arith,
      e,
      has_price-insert q o.price (levels ++ o ∷ []) book.asks,
      nat_eqb_iff q o.price,
      u p q,
      b p,
    )

rest-IsUncrossed :
    (o : Order) (s : Side) (book : OrderBook)
    → o.side ≡ s
    → IsUncrossed book
    → Beyond o s book
    → IsUncrossed (rest o book)
rest-IsUncrossed o bid book e u b = rest-bid o book e u b
rest-IsUncrossed o ask book e u b = rest-ask o book e u b

best_first-facing :
    (p : ℕ) (s : Side) (book : OrderBook)
    → has_price p (best_first s book) ≡ has_price p (facing s book)
best_first-facing p bid book = refl
best_first-facing p ask book = has_price-reverse p book.bids

best_first-BestFirst :
    (t : Order) (s : Side) (book : OrderBook)
    → t.side ≡ s
    → IsOrdered book
    → BestFirst t (best_first s book)
best_first-BestFirst t bid book e v = BestFirst-asks t book.asks e v.asks
best_first-BestFirst t ask book e v = BestFirst-bids t book.bids e v.bids

-- Where one side is as it was and the other has no new price, a book stays uncrossed.
fewer-IsUncrossed :
    (s : Side) (b b' : OrderBook)
    → IsUncrossed b
    → own s b' ≡ own s b
    → ((p : ℕ) → has_price p (facing s b') ≡ true → has_price p (facing s b) ≡ true)
    → IsUncrossed b'
fewer-IsUncrossed bid b b' u same fewer p q hp hq =
    u p q (ap (has_price p) (sym same) ∙ hp) (fewer q hq)
fewer-IsUncrossed ask b b' u same fewer p q hp hq =
    u p q (fewer p hp) (ap (has_price q) (sym same) ∙ hq)

module _ (id : ℕ) (a : AccountId) (req : OrderRequest) (book : OrderBook) (v : IsOrdered book) where
  abbrev s : Side
  s = req.side

  abbrev t : Order
  t = taker id a req book

  left_swept :
      (p : ℕ)
      → has_price p (facing req.side (run_order id a req book).book) ≡ true
      → has_price p (swept req.size t (best_first req.side book)) ≡ true
  unfolding new_order
  left_swept p h =
      let run = run_order id a req book in
      let w = run_order-Swept id a req book (facing-IsOrdered req.side book v) in
      sym (ap (has_price p) w.levels) ∙ best_first-facing p req.side run.book ∙ h

  run_order-IsUncrossed : IsUncrossed book → IsUncrossed (run_order id a req book).book
  unfolding new_order
  run_order-IsUncrossed u =
      let run = run_order id a req book in
      let w = run_order-Swept id a req book (facing-IsOrdered req.side book v) in
      fewer-IsUncrossed req.side book run.book u w.own_side (λ p h.
        sym (best_first-facing p req.side book)
        ∙ has_price-swept p req.size t (best_first req.side book) (left_swept p h))

  run_order-Beyond : Beyond (run_order id a req book).order req.side (run_order id a req book).book
  unfolding new_order
  run_order-Beyond q more h =
      let run = run_order id a req book in
      let w = run_order-Swept id a req book (facing-IsOrdered req.side book v) in
      let far : crosses t q ≡ false =
        swept-beyond q req.size t (best_first req.side book)
          (best_first-BestFirst t req.side book refl v)
          (omega (arith, more, ap (λ (o : Order). o.remaining_size) w.order)) (left_swept q h) in
      ap (λ o. crosses o q) w.order ∙ far

  -- From a book in order that is not crossed, `add_order` leaves a book that is not crossed: every
  -- bid is below every ask.
  pub add_order-IsUncrossed : IsUncrossed book → IsUncrossed (add_order id a req book).1
  unfolding add_order take_dirty_levels new_order
  add_order-IsUncrossed u =
      let run = run_order id a req book in
      let w = run_order-Swept id a req book (facing-IsOrdered req.side book v) in
      rest-IsUncrossed run.order req.side run.book (ap (λ (o : Order). o.side) w.order)
        (run_order-IsUncrossed u) run_order-Beyond
