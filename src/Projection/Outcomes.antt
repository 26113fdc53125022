-- ===== src/Projection/Outcomes.antt =====
-- What a command that does not panic says of the levels of every market.
use cex_matching_engine.Prelude.{
  nat_eq, ◌≡◌, ◌≢◌, refl, sym, arith, none, some, [], List, Option, subst, map, Option-cases, inl,
  inr, true, false,
}
use cex_matching_engine.Prelude.HashMap
use cex_matching_engine.Market.{AccountId, Pair, market_pair_eq}
use cex_matching_engine.Reject.{Result, err, invalid_amount}
use cex_matching_engine.Book.Types.{OrderRequest, Order, MatchResponse, LevelDelta, new_book}
use cex_matching_engine.Book.Reports.{IsSettled, Reports, add_order-Reports, cancel_order-Reports}
use cex_matching_engine.Book.Cancel
use cex_matching_engine.Command.{Command, CommandResponse, CancelRequest}
use cex_matching_engine.Engine.State.{Engine}
use cex_matching_engine.Engine.Operations.{place_order, cancel_order, cancelled, deposit}
use cex_matching_engine.Engine.Apply.{dispatch, Outcome, delta_event, cancel_events, placed}
use cex_matching_engine.Engine.Books.{AllBooks, IsKept, get-AllBooks, get_or-AllBooks}
use cex_matching_engine.Engine.Endings.{Ends, refused, invalid, matches, added, place_order-Ends}
use cex_matching_engine.Projection.Events.{
  Says, insert-Says, place_events-Says, cancel_events-Says, same-Says,
}

pub IsSettled-IsKept : IsKept IsSettled
IsSettled-IsKept = record {
  fresh = record { placed = record { bids = tt; asks = tt }; unmarked = refl };
  added = λ id a req book v. (add_order-Reports id a req book v).0;
  removed = λ a id book r v h. (cancel_order-Reports a id book r h v).0;
}

-- The answer to an order that is refused as an invalid amount. Such a refusal can also come behind
-- the matching, from the last release of funds.
abbrev pub unsure : CommandResponse
unsure = CommandResponse.place (err invalid_amount)

abbrev pub SaysOf : Engine → Outcome → Type 0
SaysOf e o = o.0 ≢ unsure → Says e.books o.1 o.2.books

placed-Says :
    (a : AccountId) (req : OrderRequest) (e : Engine) (r : Result MatchResponse) (e' : Engine)
    → AllBooks IsSettled e.books
    → Ends a req e r e'
    → SaysOf e (placed a req (r, e'))
unfolding placed
placed-Says a req e r e' v (refused x answer same) =
    subst (λ r. SaysOf e (placed a req (r, e'))) (sym answer)
      (λ sure. same-Says e.books e'.books same)
placed-Says a req e r e' v (invalid answer) =
    subst (λ r. SaysOf e (placed a req (r, e'))) (sym answer) (λ sure. elim (sure refl) [ ])
placed-Says a req e r e' v (matches id answer books) =
    let (res, book) = added a req id e in
    let deltas = map (delta_event req.pair) res.book_deltas in
    let old = get_or-AllBooks IsSettled IsSettled-IsKept req.pair e.books v in
    let reports = (add_order-Reports id a req (HashMap.get_or new_book req.pair e.books) old).1 in
    subst (λ r. SaysOf e (placed a req (r, e'))) (sym answer)
      (λ sure. place_events-Says a req res e.books e'.books (
        subst (Says e.books deltas) (sym books)
          (insert-Says e.books req.pair res.book_deltas book reports)))

place-Says :
    (a : AccountId) (req : OrderRequest) (e : Engine) (p : Option (Result MatchResponse × Engine))
    (o : Outcome)
    → place_order a req e ≡ p
    → dispatch a (Command.place req) e ≡ some o
    → AllBooks IsSettled e.books
    → SaysOf e o
unfolding dispatch
place-Says a req e none o ep h v = let no : none ≡ some o = ground arith in cc
place-Says a req e (some (r, e')) o ep h v =
    let same : placed a req (r, e') ≡ o = ground arith in
    subst (SaysOf e) same (placed-Says a req e r e' v (place_order-Ends a req r e' e ep))

removed-Says :
    (a : AccountId) (req : CancelRequest) (e : Engine) (r : Pair × Order × List LevelDelta)
    (e' : Engine)
    → cancel_order a req e ≡ some (r, e')
    → AllBooks IsSettled e.books
    → Says e.books (cancel_events req r) e'.books
unfolding cancel_order cancelled HashMap.get_or
removed-Says a req e r e' h v = elim (Option-cases (HashMap.get req.order_id e.order_pair)) [
  | inl unrouted ↦ let no : cancel_order a req e ≡ none = ground arith in cc
  | inr (pair, routed) ↦ elim (Option-cases (HashMap.get pair e.books)) [
    | inl no_book ↦ let no : cancel_order a req e ≡ none = ground arith in cc
    | inr (book, booked) ↦ elim (Option-cases (Cancel.cancel_order a req.order_id book)) [
      | inl absent ↦ let no : cancel_order a req e ≡ none = ground arith in cc
      | inr ((order, deltas, book'), found) ↦
          let same : cancelled req.order_id pair (order, deltas, book') e ≡ (r, e') =
            ground arith in
          let settled = get-AllBooks IsSettled IsSettled-IsKept pair book e.books booked v in
          let reports =
            (cancel_order-Reports a req.order_id book (order, deltas, book') found settled).1 in
          let at_pair : HashMap.get_or new_book pair e.books ≡ book =
            rw (booked, HashMap.get_or) refl in
          subst
            (λ (x : (Pair × Order × List LevelDelta) × Engine).
              Says e.books (cancel_events req x.0) x.1.books)
            same
            (cancel_events-Says req pair order deltas e.books (HashMap.insert pair book' e.books) (
              insert-Says e.books pair deltas book'
                (subst (λ b. Reports b deltas book') (sym at_pair) reports)))
    ]
  ]
]

cancel-Says :
    (a : AccountId) (req : CancelRequest) (e : Engine)
    (p : Option ((Pair × Order × List LevelDelta) × Engine)) (o : Outcome)
    → cancel_order a req e ≡ p
    → dispatch a (Command.cancel req) e ≡ some o
    → AllBooks IsSettled e.books
    → SaysOf e o
unfolding dispatch
cancel-Says a req e none o ep h v =
    let same : (CommandResponse.cancel false, [], e) ≡ o = ground arith in
    subst (SaysOf e) same (λ sure. same-Says e.books e.books refl)
cancel-Says a req e (some (r, e')) o ep h v =
    let same : (CommandResponse.cancel true, cancel_events req r, e') ≡ o = ground arith in
    subst (SaysOf e) same (λ sure. removed-Says a req e r e' ep v)

-- A command that emits no event so far and leaves the books.
quiet-Says : (e : Engine) (o : Outcome) → o.1 ≡ [] → o.2.books ≡ e.books → SaysOf e o
quiet-Says e o no_event same sure =
    subst (λ events. Says e.books events o.2.books) (sym no_event)
      (same-Says e.books o.2.books same)

pub dispatch-Says :
    (a : AccountId) (c : Command) (e : Engine) (o : Outcome)
    → dispatch a c e ≡ some o
    → AllBooks IsSettled e.books
    → SaysOf e o
unfolding dispatch deposit
dispatch-Says a (Command.place req) e o h v = place-Says a req e (place_order a req e) o refl h v
dispatch-Says a (Command.cancel req) e o h v = cancel-Says a req e (cancel_order a req e) o refl h v
dispatch-Says a (Command.deposit req) e o h v = quiet-Says e o (ground arith) (ground arith)
dispatch-Says a (Command.withdraw req) e o h v = quiet-Says e o (ground arith) (ground arith)
dispatch-Says a (Command.list_pair p) e o h v = quiet-Says e o (ground arith) (ground arith)
dispatch-Says a (Command.delist_pair p) e o h v = quiet-Says e o (ground arith) (ground arith)
