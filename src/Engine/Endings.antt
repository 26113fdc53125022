-- ===== src/Engine/Endings.antt =====
-- How an order ends: what the engine answers, and what it did to its books.
use cex_matching_engine.Prelude.{
  ℕ, ◌≡◌, refl, ap, arith, none, some, Option-cases, Bool-cases, if◌then◌else◌, ◌&&◌, inl, inr,
  nat_eq, ltb,
}
use cex_matching_engine.Prelude.HashMap
use cex_matching_engine.Market.{AccountId, Currency, market_pair_eq}
use cex_matching_engine.Reject.{Result, ok, err, RejectReason, invalid_amount}
use cex_matching_engine.Ledger
use cex_matching_engine.Ledger.{Ledger}
use cex_matching_engine.Book.Types.{
  side_eqb, bid, ask, OrderBook, OrderRequest, MatchResponse, new_book,
}
use cex_matching_engine.Book.Matching.{add_order}
use cex_matching_engine.Engine.State.{Engine}
use cex_matching_engine.Engine.Operations.{
  place_order, after_reserve, match_and_settle, matched, settled, release_rest, surplus, is_market,
  is_limit, settle_all, quote_amount, check_order, reserve_for,
}

release-err :
    (a : AccountId) (c : Currency) (n : ℕ) (l : Ledger) (x : RejectReason)
    → (Ledger.release a c n l).0 ≡ err x
    → x ≡ invalid_amount
unfolding Ledger.release
release-err a c n l x e = ground arith

release_rest-err :
    (a : AccountId) (req : OrderRequest) (res : MatchResponse) (l : Ledger) (x : RejectReason)
    → (release_rest a req res l).0 ≡ err x
    → x ≡ invalid_amount
unfolding release_rest
release_rest-err a req res l x e =
    let unsold =
      if (is_market req && side_eqb req.side ask) && ltb 0 res.taker_remaining
      then (Ledger.release a req.pair.base res.taker_remaining l).1
      else l in
    let saved = surplus req.price res.trades in
    elim (Bool-cases ((side_eqb req.side bid && is_limit req) && ltb 0 saved)) [
      | inl handed ↦ release-err a req.pair.quote saved unsold x (ground arith)
      | inr kept ↦ let done : (release_rest a req res l).0 ≡ ok tt = ground arith in ground arith
    ]

-- The book that a matched order leaves, with the response.
abbrev pub added : AccountId → OrderRequest → ℕ → Engine → MatchResponse × OrderBook
added a req id e = add_order id a req (HashMap.get_or new_book req.pair e.books)

-- How an order ends: refused with the books as they were, refused as an invalid amount, or matched.
pub data Ends (a : AccountId) (req : OrderRequest) (e : Engine) (r : Result MatchResponse)
    (e' : Engine) : Type 0 where
  refused : (x : RejectReason) → r ≡ err x → e'.books ≡ e.books → Ends a req e r e'
  invalid : r ≡ err invalid_amount → Ends a req e r e'
  matches :
      (id : ℕ)
      → r ≡ ok (added a req id e).0
      → e'.books ≡ HashMap.insert req.pair (added a req id e).1 e.books
      → Ends a req e r e'

module _ (a : AccountId) (req : OrderRequest) (r : Result MatchResponse) (e' : Engine) where
  released-Ends :
      (e : Engine) (p : Result (Unit {0}) × Ledger) (l : Ledger)
      → settle_all req.pair (matched a req e).0.trades (matched a req e).1.ledger ≡ some l
      → release_rest a req (matched a req e).0 l ≡ p
      → settled a req (matched a req e).0 (matched a req e).1 ≡ some (r, e')
      → Ends a req e r e'
  unfolding settled matched
  released-Ends e (ok u, l') l el ep h = matches e.next_order_id (ground arith) (ground arith)
  released-Ends e (err x, l') l el ep h =
      let reason = release_rest-err a req (matched a req e).0 l x (ap (λ q. q.0) ep) in
      invalid (ground (arith, reason))

  settled-Ends :
      (e : Engine)
      → settled a req (matched a req e).0 (matched a req e).1 ≡ some (r, e')
      → Ends a req e r e'
  unfolding settled
  settled-Ends e h =
      elim (Option-cases
        (settle_all req.pair (matched a req e).0.trades (matched a req e).1.ledger)) [
          | inl panic ↦
              let no : settled a req (matched a req e).0 (matched a req e).1 ≡ none =
                ground arith in
              cc
          | inr (l, pays) ↦ released-Ends e (release_rest a req (matched a req e).0 l) l pays refl h
        ]

  after_reserve-Ends :
      (u : Result (Unit {0})) (e : Engine)
      → after_reserve a req u e ≡ some (r, e')
      → Ends a req e r e'
  unfolding after_reserve match_and_settle
  after_reserve-Ends (err x) e h = refused x (ground arith) (ground arith)
  after_reserve-Ends (ok u) e h = settled-Ends e h

  with_ledger :
      (e : Engine) (l : Ledger) → Ends a req (record e { ledger = l }) r e' → Ends a req e r e'
  with_ledger e l (refused x answer same) = refused x answer same
  with_ledger e l (invalid answer) = invalid answer
  with_ledger e l (matches id answer books) = matches id answer books

  amount-Ends :
      (e : Engine) (u : Unit {0}) (q : Result ℕ)
      → check_order a req e ≡ ok u
      → quote_amount req e ≡ q
      → place_order a req e ≡ some (r, e')
      → Ends a req e r e'
  unfolding place_order
  amount-Ends e u (err x) ec eq h = refused x (ground arith) (ground arith)
  amount-Ends e u (ok n) ec eq h =
      let (reserved, l) = reserve_for a req n e.ledger in
      with_ledger e l (after_reserve-Ends reserved (record e { ledger = l }) (ground arith))

  check-Ends :
      (e : Engine) (k : Result (Unit {0}))
      → check_order a req e ≡ k
      → place_order a req e ≡ some (r, e')
      → Ends a req e r e'
  unfolding place_order
  check-Ends e (err x) ec h = refused x (ground arith) (ground arith)
  check-Ends e (ok u) ec h = amount-Ends e u (quote_amount req e) ec refl h

  pub place_order-Ends : (e : Engine) → place_order a req e ≡ some (r, e') → Ends a req e r e'
  place_order-Ends e h = check-Ends e (check_order a req e) refl h
