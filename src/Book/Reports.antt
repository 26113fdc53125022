-- ===== src/Book/Reports.antt =====
-- `add_order` and `cancel_order` report every level that they change.
use cex_matching_engine.Prelude.{
  ℕ, zero, suc, ◌≡◌, refl, sym, ap, ◌∙◌, arith, none, some, List, [], ◌∷◌, ◌++◌, All, Bool, subst,
  nat_eqb, nat_eq, pair_eq, pair_eqb, Bool-cases, Option-cases, inl, inr, true, false,
  if◌then◌else◌,
}
use cex_matching_engine.Prelude.HashMap
use cex_matching_engine.Prelude.BTreeMap
use cex_matching_engine.Prelude.BTreeMap.{BTreeMap}
use cex_matching_engine.Market.{AccountId}
use cex_matching_engine.Book.Types.{
  Side, bid, ask, side_eq, Order, OrderBook, OrderRequest, LevelDelta, order_type_eqb, limit,
}
use cex_matching_engine.Book.Levels.{levels_of, qty_at, take_dirty_levels}
use cex_matching_engine.Book.Matching.{
  Run, add_order, run_order, rest, rest_in, push_back, new_order, sweep_fuel,
}
use cex_matching_engine.Book.Cancel.{put_queue, cancel_order, forget_order, remove_at}
use cex_matching_engine.Book.Cancelling.{cancel_order-Forgets}
use cex_matching_engine.Book.Placing.{
  At, StandsAt-All, IsPlaced, levels_of-StandsAt, put_queue-IsPlaced, rest-IsPlaced,
}
use cex_matching_engine.Book.Deltas.{marked, Marks, told, take_dirty_levels-told, qty_at-same}
use cex_matching_engine.Book.Marking.{sweep-Follows, qty_at-get}

-- A book between two operations: its orders stand in their places, and no level is marked.
pub record IsSettled (book : OrderBook) : Type 0 where
  pub placed : IsPlaced book
  pub unmarked : book.dirty_levels ≡ []

-- The deltas say of every level what its quantity is after an operation.
abbrev pub Reports : OrderBook → List LevelDelta → OrderBook → Type 0
Reports old deltas book = (s : Side) (p : ℕ) → qty_at s p book ≡ told s p (qty_at s p old) deltas

put_queue-qty :
    (s : Side) (p : ℕ) (queue : List Order) (book : OrderBook) (t : Side) (q : ℕ)
    → pair_eqb (t, q) (s, p) ≡ false
    → qty_at t q (put_queue s p queue book) ≡ qty_at t q book
unfolding put_queue levels_of
put_queue-qty bid p [] book ask q other = qty_at-get ask q (put_queue bid p [] book) book refl
put_queue-qty bid p (o ∷ r) book ask q other =
    qty_at-get ask q (put_queue bid p (o ∷ r) book) book refl
put_queue-qty bid p [] book bid q other =
    qty_at-get bid q (put_queue bid p [] book) book
      (BTreeMap.get-remove q p book.bids ∙ rw other refl)
put_queue-qty bid p (o ∷ r) book bid q other =
    qty_at-get bid q (put_queue bid p (o ∷ r) book) book
      (BTreeMap.get-insert q p (o ∷ r) book.bids ∙ rw other refl)
put_queue-qty ask p [] book bid q other = qty_at-get bid q (put_queue ask p [] book) book refl
put_queue-qty ask p (o ∷ r) book bid q other =
    qty_at-get bid q (put_queue ask p (o ∷ r) book) book refl
put_queue-qty ask p [] book ask q other =
    qty_at-get ask q (put_queue ask p [] book) book
      (BTreeMap.get-remove q p book.asks ∙ rw other refl)
put_queue-qty ask p (o ∷ r) book ask q other =
    qty_at-get ask q (put_queue ask p (o ∷ r) book) book
      (BTreeMap.get-insert q p (o ∷ r) book.asks ∙ rw other refl)

rest_in-qty :
    (o : Order) (s : Side) (book : OrderBook) (t : Side) (q : ℕ)
    → o.side ≡ s
    → pair_eqb (t, q) (s, o.price) ≡ false
    → qty_at t q (rest_in o book) ≡ qty_at t q book
unfolding rest_in push_back levels_of
rest_in-qty o bid book bid q e other =
    let rested : OrderBook = record book { bids = push_back o book.bids } in
    let same : rest_in o book ≡ rested = ground arith in
    let queue = HashMap.or_else [] (BTreeMap.get o.price book.bids) ++ o ∷ [] in
    ap (qty_at bid q) same
    ∙ qty_at-get bid q rested book (BTreeMap.get-insert q o.price queue book.bids ∙ rw other refl)
rest_in-qty o bid book ask q e other =
    let rested : OrderBook = record book { bids = push_back o book.bids } in
    let same : rest_in o book ≡ rested = ground arith in
    ap (qty_at ask q) same ∙ qty_at-get ask q rested book refl
rest_in-qty o ask book ask q e other =
    let rested : OrderBook = record book { asks = push_back o book.asks } in
    let same : rest_in o book ≡ rested = ground arith in
    let queue = HashMap.or_else [] (BTreeMap.get o.price book.asks) ++ o ∷ [] in
    ap (qty_at ask q) same
    ∙ qty_at-get ask q rested book (BTreeMap.get-insert q o.price queue book.asks ∙ rw other refl)
rest_in-qty o ask book bid q e other =
    let rested : OrderBook = record book { asks = push_back o book.asks } in
    let same : rest_in o book ≡ rested = ground arith in
    ap (qty_at bid q) same ∙ qty_at-get bid q rested book refl

with_mark : (b c : Bool) → (if b then true else c) ≡ false → (b ≡ false) × (c ≡ false)
with_mark true c h = cc
with_mark false c h = (refl, h)

rest-Marks :
    (old : OrderBook) (o : Order) (book : OrderBook) → Marks old book → Marks old (rest o book)
unfolding rest
rest-Marks old o book h t q = elim (Bool-cases (nat_eqb o.remaining_size 0)) [
  | inl filled ↦ rw filled (h t q)
  | inr left ↦ rw left (elim (Bool-cases (order_type_eqb o.order_type limit)) [
    | inr gone ↦ rw gone (h t q)
    | inl rests ↦ rw rests (λ e.
        let marks = HashMap.contains-with_elem (t, q) (o.side, o.price) book.dirty_levels in
        let (other, clean) =
          with_mark (pair_eqb (t, q) (o.side, o.price)) (marked t q book) (sym marks ∙ e) in
        qty_at-same t q
          (record (rest_in o book) {
            dirty_levels = HashMap.with_elem (o.side, o.price) book.dirty_levels;
            order_index =
                HashMap.insert o.id
                  (record { owner = o.account_id; side = o.side; price = o.price })
                  book.order_index;
          })
          (rest_in o book) refl refl
        ∙ rest_in-qty o o.side book t q refl other
        ∙ h t q clean)
  ])
]

-- From a book between two operations, an order that is added leaves such a book, and the deltas say
-- of every level what its quantity is then: a level that they do not name is as it was.
pub add_order-Reports :
    (id : ℕ) (a : AccountId) (req : OrderRequest) (book : OrderBook)
    → IsSettled book
    → let (res, book') = add_order id a req book in
      IsSettled book' × Reports book res.book_deltas book'
unfolding add_order run_order take_dirty_levels
add_order-Reports id a req book v =
    let start : Run = record {
      order = new_order id a req;
      trades = [];
      updates = [];
      book = book;
    } in
    let f =
      sweep-Follows book (sweep_fuel req.side book) req.pair start
        (record { marks = λ s p e. refl; placed = v.placed }) in
    let run = run_order id a req book in
    let w = rest-IsPlaced run.order run.book f.placed in
    (
      record { placed = record { bids = w.bids; asks = w.asks }; unmarked = refl },
      λ s p. sym (
          take_dirty_levels-told book (rest run.order run.book) s p
            (rest-Marks book run.order run.book f.marks)),
    )

remove_at-All :
    (P : Order → Type 0) (i : ℕ) (queue : List Order) (r : Order × List Order)
    → remove_at i queue ≡ some r
    → All P queue
    → All P r.1
unfolding remove_at
remove_at-All P i [] r e h = cc
remove_at-All P zero (o ∷ queue) r e h =
    let same : queue ≡ r.1 = ground arith in subst (All P) same h.1
remove_at-All P (suc i) (o ∷ queue) r e h = elim (Option-cases (remove_at i queue)) [
  | inl absent ↦ let no : remove_at (suc i) (o ∷ queue) ≡ none = ground arith in cc
  | inr (inner, found) ↦
      let same : o ∷ inner.1 ≡ r.1 = ground arith in
      subst (All P) same (h.0, remove_at-All P i queue inner found h.1)
]

forget_order-Reports :
    (id : ℕ) (s : Side) (p : ℕ) (r : Order × List Order) (book : OrderBook)
    → All (At s p) r.1
    → IsSettled book
    → let (order, deltas, book') = forget_order id s p r book in
      IsSettled book' × Reports book deltas book'
unfolding forget_order take_dirty_levels
forget_order-Reports id s p r book h v =
    let book1 = put_queue s p r.1 book in
    let w = put_queue-IsPlaced s p r.1 book h v.placed in
    let marked_book : OrderBook = record book1 {
      order_index = HashMap.remove id book1.order_index;
      dirty_levels = HashMap.with_elem (s, p) book1.dirty_levels;
    } in
    let marks : Marks book marked_book = λ t q e.
      let (other, clean) =
        with_mark (pair_eqb (t, q) (s, p)) (marked t q book1)
          (sym (HashMap.contains-with_elem (t, q) (s, p) book1.dirty_levels) ∙ e) in
      qty_at-same t q marked_book book1 refl refl ∙ put_queue-qty s p r.1 book t q other in
    (
      record { placed = record { bids = w.bids; asks = w.asks }; unmarked = refl },
      λ t q. sym (take_dirty_levels-told book marked_book t q marks),
    )

-- The same of a cancellation that succeeds.
pub cancel_order-Reports :
    (a : AccountId) (id : ℕ) (book : OrderBook) (r : Order × List LevelDelta × OrderBook)
    → cancel_order a id book ≡ some r
    → IsSettled book
    → IsSettled r.2 × Reports book r.1 r.2
cancel_order-Reports a id book r e v =
    let f = cancel_order-Forgets a id book r e in
    let stands =
      StandsAt-All f.side f.price f.old
        (levels_of-StandsAt f.side f.price f.old book f.found v.placed) in
    subst (λ (x : Order × List LevelDelta × OrderBook). IsSettled x.2 × Reports book x.1 x.2)
      f.result
      (forget_order-Reports id f.side f.price f.rest book
        (remove_at-All (At f.side f.price) f.index f.old f.rest f.taken stands) v)
