-- ===== src/Engine/Books.antt =====
-- What an operation of the engine does to its books: nothing, or one write of a book that an
-- operation of the book made.
use cex_matching_engine.Prelude.{
  ℕ, ◌≡◌, refl, sym, arith, none, some, [], ◌∷◌, All, List, Option, subst, Option-cases, Bool-cases,
  inl, inr, nat_eq,
}
use cex_matching_engine.Prelude.HashMap
use cex_matching_engine.Market.{AccountId, Pair, market_pair_eq, pair_eqb}
use cex_matching_engine.Book.Types.{
  OrderBook, OrderRequest, Order, MatchResponse, LevelDelta, new_book,
}
use cex_matching_engine.Book.Matching.{add_order}
use cex_matching_engine.Book.Cancel
use cex_matching_engine.Book.Cancel.{forget_order}
use cex_matching_engine.Engine.State.{Engine}
use cex_matching_engine.Reject.{Result, ok, err}
use cex_matching_engine.Command.{Command, CancelRequest}
use cex_matching_engine.Engine.Operations.{
  cancelled, cancel_order, place_order, after_reserve, match_and_settle, matched, settled,
  quote_amount, check_order, reserve_for, deposit,
}
use cex_matching_engine.Engine.Apply.{dispatch, placed, Outcome}

abbrev pub Books : Type 0
Books = HashMap.HashMap Pair OrderBook

-- A property that a new book has and that the operations of a book keep.
pub record IsKept (P : OrderBook → Type 0) : Type 0 where
  pub fresh : P new_book
  pub added :
      (id : ℕ) (a : AccountId) (req : OrderRequest) (book : OrderBook)
      → P book
      → P (add_order id a req book).1
  pub removed :
      (a : AccountId) (id : ℕ) (book : OrderBook) (r : Order × List LevelDelta × OrderBook)
      → P book
      → Cancel.cancel_order a id book ≡ some r
      → P r.2

abbrev pub AllBooks : (OrderBook → Type 0) → Books → Type 0
AllBooks P books = All (λ (x : Pair × OrderBook). P x.1) books

-- If the books of `e` have the property, so do those of `e'`.
abbrev pub Keeps : (OrderBook → Type 0) → Engine → Engine → Type 0
Keeps P e e' = AllBooks P e.books → AllBooks P e'.books

module _ (P : OrderBook → Type 0) (kept : IsKept P) where
  insert-AllBooks :
      (pair : Pair) (book : OrderBook) (books : Books)
      → P book
      → AllBooks P books
      → AllBooks P (HashMap.insert pair book books)
  unfolding HashMap.insert
  insert-AllBooks pair book [] h c = (h, tt)
  insert-AllBooks pair book (x ∷ books) h c = elim (Bool-cases (pair_eqb pair x.0)) [
    | inl here ↦ rw (here, HashMap.insert) (h, c.1)
    | inr other ↦ rw (other, HashMap.insert) (c.0, insert-AllBooks pair book books h c.1)
  ]

  pub get-AllBooks :
      (pair : Pair) (book : OrderBook) (books : Books)
      → HashMap.get pair books ≡ some book
      → AllBooks P books
      → P book
  unfolding HashMap.get
  get-AllBooks pair book [] h c = cc
  get-AllBooks pair book (x ∷ books) h c = elim (Bool-cases (pair_eqb pair x.0)) [
    | inl here ↦ let same : x.1 ≡ book = ground arith in subst P same c.0
    | inr other ↦ get-AllBooks pair book books (ground arith) c.1
  ]

  pub get_or-AllBooks :
      (pair : Pair) (books : Books) → AllBooks P books → P (HashMap.get_or new_book pair books)
  unfolding HashMap.get_or
  get_or-AllBooks pair books c = elim (Option-cases (HashMap.get pair books)) [
    | inl absent ↦ rw (absent, HashMap.get_or) kept.fresh
    | inr (book, found) ↦ rw (found, HashMap.get_or) (get-AllBooks pair book books found c)
  ]

  module _ (a : AccountId) (req : OrderRequest) (r : Result MatchResponse) (e' : Engine) where
    settled-Keeps :
        (res : MatchResponse) (e : Engine) → settled a req res e ≡ some (r, e') → e'.books ≡ e.books
    unfolding settled
    settled-Keeps res e h = ground arith

    matched-AllBooks : (e : Engine) → AllBooks P e.books → AllBooks P (matched a req e).1.books
    unfolding matched
    matched-AllBooks e c =
        let book = HashMap.get_or new_book req.pair e.books in
        insert-AllBooks req.pair (add_order e.next_order_id a req book).1 e.books
          (kept.added e.next_order_id a req book (get_or-AllBooks req.pair e.books c)) c

    after_reserve-Keeps :
        (u : Result (Unit {0})) (e : Engine) → after_reserve a req u e ≡ some (r, e') → Keeps P e e'
    unfolding after_reserve match_and_settle
    after_reserve-Keeps (err x) e h c =
        let same : e ≡ e' = ground arith in subst (λ x. AllBooks P x.books) same c
    after_reserve-Keeps (ok u) e h c =
        subst (AllBooks P) (sym (settled-Keeps (matched a req e).0 (matched a req e).1 h))
          (matched-AllBooks e c)

    amount-Keeps :
        (e : Engine) (c : Unit {0}) (q : Result ℕ)
        → check_order a req e ≡ ok c
        → quote_amount req e ≡ q
        → place_order a req e ≡ some (r, e')
        → Keeps P e e'
    unfolding place_order
    amount-Keeps e u (err x) ec eq h c =
        let same : e ≡ e' = ground arith in subst (λ x. AllBooks P x.books) same c
    amount-Keeps e u (ok n) ec eq h c =
        let (reserved, l) = reserve_for a req n e.ledger in
        after_reserve-Keeps reserved (record e { ledger = l }) (ground arith) c

    check-Keeps :
        (e : Engine) (k : Result (Unit {0}))
        → check_order a req e ≡ k
        → place_order a req e ≡ some (r, e')
        → Keeps P e e'
    unfolding place_order
    check-Keeps e (err x) ec h c =
        let same : e ≡ e' = ground arith in subst (λ x. AllBooks P x.books) same c
    check-Keeps e (ok u) ec h c = amount-Keeps e u (quote_amount req e) ec refl h c

    place_order-Keeps : (e : Engine) → place_order a req e ≡ some (r, e') → Keeps P e e'
    place_order-Keeps e h = check-Keeps e (check_order a req e) refl h

  cancel_order-Keeps :
      (a : AccountId) (req : CancelRequest) (e : Engine) (r : Pair × Order × List LevelDelta)
      (e' : Engine)
      → cancel_order a req e ≡ some (r, e')
      → Keeps P e e'
  unfolding cancel_order cancelled
  cancel_order-Keeps a req e r e' h c =
      elim (Option-cases (HashMap.get req.order_id e.order_pair)) [
        | inl unrouted ↦ let no : cancel_order a req e ≡ none = ground arith in cc
        | inr (pair, routed) ↦ elim (Option-cases (HashMap.get pair e.books)) [
          | inl no_book ↦ let no : cancel_order a req e ≡ none = ground arith in cc
          | inr (book, booked) ↦ elim (Option-cases (Cancel.cancel_order a req.order_id book)) [
            | inl absent ↦ let no : cancel_order a req e ≡ none = ground arith in cc
            | inr (removed, found) ↦
                let same : cancelled req.order_id pair removed e ≡ (r, e') = ground arith in
                subst (λ (x : (Pair × Order × List LevelDelta) × Engine). AllBooks P x.1.books) same
                  (insert-AllBooks pair removed.2 e.books
                    (kept.removed a req.order_id book removed
                      (get-AllBooks pair book e.books booked c) found)
                    c)
          ]
        ]
      ]

  placed-Keeps :
      (a : AccountId) (req : OrderRequest) (e : Engine) (p : Option (Result MatchResponse × Engine))
      (o : Outcome)
      → place_order a req e ≡ p
      → dispatch a (Command.place req) e ≡ some o
      → Keeps P e o.2
  unfolding dispatch placed
  placed-Keeps a req e none o ep h = let no : none ≡ some o = ground arith in cc
  placed-Keeps a req e (some (ok res, e')) o ep h =
      let same : e' ≡ o.2 = ground arith in
      subst (Keeps P e) same (place_order-Keeps a req (ok res) e' e ep)
  placed-Keeps a req e (some (err x, e')) o ep h =
      let same : e' ≡ o.2 = ground arith in
      subst (Keeps P e) same (place_order-Keeps a req (err x) e' e ep)

  removed-Keeps :
      (a : AccountId) (req : CancelRequest) (e : Engine)
      (p : Option ((Pair × Order × List LevelDelta) × Engine)) (o : Outcome)
      → cancel_order a req e ≡ p
      → dispatch a (Command.cancel req) e ≡ some o
      → Keeps P e o.2
  unfolding dispatch
  removed-Keeps a req e none o ep h =
      let same : e ≡ o.2 = ground arith in subst (Keeps P e) same (λ c. c)
  removed-Keeps a req e (some (r, e')) o ep h =
      let same : e' ≡ o.2 = ground arith in
      subst (Keeps P e) same (cancel_order-Keeps a req e r e' ep)

  -- The other commands leave the books.
  same-Keeps : (e e' : Engine) → e'.books ≡ e.books → Keeps P e e'
  same-Keeps e e' h c = subst (AllBooks P) (sym h) c

  -- Every command keeps such a property of all the books.
  pub dispatch-Keeps :
      (a : AccountId) (c : Command) (e : Engine) (o : Outcome)
      → dispatch a c e ≡ some o
      → Keeps P e o.2
  unfolding dispatch deposit
  dispatch-Keeps a (Command.place req) e o h = placed-Keeps a req e (place_order a req e) o refl h
  dispatch-Keeps a (Command.cancel req) e o h =
      removed-Keeps a req e (cancel_order a req e) o refl h
  dispatch-Keeps a (Command.deposit req) e o h = same-Keeps e o.2 (ground arith)
  dispatch-Keeps a (Command.withdraw req) e o h = same-Keeps e o.2 (ground arith)
  dispatch-Keeps a (Command.list_pair p) e o h = same-Keeps e o.2 (ground arith)
  dispatch-Keeps a (Command.delist_pair p) e o h = same-Keeps e o.2 (ground arith)
