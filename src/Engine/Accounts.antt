-- ===== src/Engine/Accounts.antt =====
-- What a command does to the balances, and what its batch says of them.
use cex_matching_engine.Prelude.{
  ℕ, ◌≡◌, refl, sym, Bool, true, false, ◌&&◌, if◌then◌else◌, arith, some, none, Option,
  Option-cases, [], ◌∷◌, List, nat_eq, pair_eq, Bool-cases, inl, inr, ltb, subst, mul_u64,
  checked_add,
}
use cex_matching_engine.Prelude.HashMap
use cex_matching_engine.Market.{AccountId, Pair, market_pair_eq, currency_eq}
use cex_matching_engine.Reject.{Result, ok, err}
use cex_matching_engine.Book.Types.{
  Trade, Side, bid, ask, side_eqb, OrderRequest, Order, MatchResponse, LevelDelta,
}
use cex_matching_engine.Book.Cancel
use cex_matching_engine.Command.{Command, CancelRequest, DepositRequest}
use cex_matching_engine.Ledger
use cex_matching_engine.Ledger.{Ledger}
use cex_matching_engine.Ledger.Marks.{
  Marked, same-Marked, then-Marked, deposit-Marked, withdraw-Marked, reserve-Marked, release-Marked,
  settle-Marked,
}
use cex_matching_engine.Engine.State.{Engine}
use cex_matching_engine.Engine.Operations.{
  place_order, after_reserve, match_and_settle, matched, settled, release_rest, surplus, is_market,
  is_limit, settle_all, quote_amount, check_order, reserve_for, cancel_order, cancelled, refund,
  deposit,
}
use cex_matching_engine.Engine.Apply.{dispatch, placed, Outcome}

settle_all-Marked :
    (pair : Pair) (ts : List Trade) (l l' : Ledger) → settle_all pair ts l ≡ some l' → Marked l l'
unfolding settle_all
settle_all-Marked pair [] l l' h =
    let same : l ≡ l' = ground arith in subst (Marked l) same (same-Marked l)
settle_all-Marked pair (t ∷ ts) l l' h = elim (Option-cases (Ledger.settle pair t l)) [
  | inl panic ↦ let no : settle_all pair (t ∷ ts) l ≡ none = ground arith in cc
  | inr (l1, first) ↦
      then-Marked l l1 l' (settle-Marked pair t l l1 first)
        (settle_all-Marked pair ts l1 l' (ground arith))
]

reserve_for-Marked :
    (a : AccountId) (req : OrderRequest) (s : Side) (n : ℕ) (l : Ledger)
    → req.side ≡ s
    → Marked l (reserve_for a req n l).1
unfolding reserve_for
reserve_for-Marked a req bid n l e =
    let same : reserve_for a req n l ≡ Ledger.reserve a req.pair.quote n l = ground arith in
    subst (λ (x : Result (Unit {0}) × Ledger). Marked l x.1) (sym same)
      (reserve-Marked a req.pair.quote n l)
reserve_for-Marked a req ask n l e =
    let same : reserve_for a req n l ≡ Ledger.reserve a req.pair.base req.size l = ground arith in
    subst (λ (x : Result (Unit {0}) × Ledger). Marked l x.1) (sym same)
      (reserve-Marked a req.pair.base req.size l)

refund-Marked :
    (pair : Pair) (o : Order) (s : Side) (l : Ledger) → o.side ≡ s → Marked l (refund pair o l)
unfolding refund
refund-Marked pair o bid l e =
    let n = mul_u64 o.remaining_size o.price in
    let same : refund pair o l ≡ (Ledger.release o.account_id pair.quote n l).1 = ground arith in
    subst (Marked l) (sym same) (release-Marked o.account_id pair.quote n l)
refund-Marked pair o ask l e =
    let same : refund pair o l ≡ (Ledger.release o.account_id pair.base o.remaining_size l).1 =
      ground arith in
    subst (Marked l) (sym same) (release-Marked o.account_id pair.base o.remaining_size l)

if-Marked :
    (b : Bool) (l : Ledger) (x y : Result (Unit {0}) × Ledger)
    → Marked l x.1
    → Marked l y.1
    → Marked l (if b then x else y).1
if-Marked true l x y hx hy = hx
if-Marked false l x y hx hy = hy

or_same-Marked : (b : Bool) (l l' : Ledger) → Marked l l' → Marked l (if b then l' else l)
or_same-Marked true l l' h = h
or_same-Marked false l l' h = same-Marked l

release_rest-Marked :
    (a : AccountId) (req : OrderRequest) (res : MatchResponse) (l : Ledger)
    → Marked l (release_rest a req res l).1
unfolding release_rest
release_rest-Marked a req res l =
    let sells = (is_market req && side_eqb req.side ask) && ltb 0 res.taker_remaining in
    let rest = (Ledger.release a req.pair.base res.taker_remaining l).1 in
    let unsold = if sells then rest else l in
    let saved = surplus req.price res.trades in
    let first : Marked l unsold =
      or_same-Marked sells l rest (release-Marked a req.pair.base res.taker_remaining l) in
    if-Marked ((side_eqb req.side bid && is_limit req) && ltb 0 saved) l
      (Ledger.release a req.pair.quote saved unsold) (ok tt, unsold)
      (then-Marked l unsold (Ledger.release a req.pair.quote saved unsold).1 first
        (release-Marked a req.pair.quote saved unsold))
      first

module _ (a : AccountId) (req : OrderRequest) (r : Result MatchResponse) (e' : Engine) where
  settled-Marked :
      (res : MatchResponse) (e : Engine)
      → settled a req res e ≡ some (r, e')
      → Marked e.ledger e'.ledger
  unfolding settled
  settled-Marked res e h = elim (Option-cases (settle_all req.pair res.trades e.ledger)) [
    | inl panic ↦ let no_panic : settled a req res e ≡ none = ground arith in cc
    | inr (l, pays) ↦
        let same : (release_rest a req res l).1 ≡ e'.ledger = ground arith in
        subst (Marked e.ledger) same (
          then-Marked e.ledger l (release_rest a req res l).1
            (settle_all-Marked req.pair res.trades e.ledger l pays)
            (release_rest-Marked a req res l))
  ]

  after_reserve-Marked :
      (u : Result (Unit {0})) (e : Engine)
      → after_reserve a req u e ≡ some (r, e')
      → Marked e.ledger e'.ledger
  unfolding after_reserve match_and_settle matched
  after_reserve-Marked (err x) e h =
      let same : e.ledger ≡ e'.ledger = ground arith in
      subst (Marked e.ledger) same (same-Marked e.ledger)
  after_reserve-Marked (ok u) e h = settled-Marked (matched a req e).0 (matched a req e).1 h

  refused-Marked : (e : Engine) → e ≡ e' → Marked e.ledger e'.ledger
  refused-Marked e same =
      subst (λ (x : Engine). Marked e.ledger x.ledger) same (same-Marked e.ledger)

  amount-Marked :
      (e : Engine) (u : Unit {0}) (q : Result ℕ)
      → check_order a req e ≡ ok u
      → quote_amount req e ≡ q
      → place_order a req e ≡ some (r, e')
      → Marked e.ledger e'.ledger
  unfolding place_order
  amount-Marked e u (err x) ec eq h = refused-Marked e (ground arith)
  amount-Marked e u (ok n) ec eq h =
      let (reserved, l) = reserve_for a req n e.ledger in
      then-Marked e.ledger l e'.ledger (reserve_for-Marked a req req.side n e.ledger refl)
        (after_reserve-Marked reserved (record e { ledger = l }) (ground arith))

  check-Marked :
      (e : Engine) (k : Result (Unit {0}))
      → check_order a req e ≡ k
      → place_order a req e ≡ some (r, e')
      → Marked e.ledger e'.ledger
  unfolding place_order
  check-Marked e (err x) ec h = refused-Marked e (ground arith)
  check-Marked e (ok u) ec h = amount-Marked e u (quote_amount req e) ec refl h

cancel_order-Marked :
    (a : AccountId) (req : CancelRequest) (e : Engine) (r : Pair × Order × List LevelDelta)
    (e' : Engine)
    → cancel_order a req e ≡ some (r, e')
    → Marked e.ledger e'.ledger
unfolding cancel_order cancelled
cancel_order-Marked a req e r e' h = elim (Option-cases (HashMap.get req.order_id e.order_pair)) [
  | inl unrouted ↦ let absent : cancel_order a req e ≡ none = ground arith in cc
  | inr (pair, routed) ↦ elim (Option-cases (HashMap.get pair e.books)) [
    | inl no_book ↦ let absent : cancel_order a req e ≡ none = ground arith in cc
    | inr (book, booked) ↦ elim (Option-cases (Cancel.cancel_order a req.order_id book)) [
      | inl gone ↦ let absent : cancel_order a req e ≡ none = ground arith in cc
      | inr ((order, deltas, book'), found) ↦
          let same : refund pair order e.ledger ≡ e'.ledger = ground arith in
          subst (Marked e.ledger) same (refund-Marked pair order order.side e.ledger refl)
    ]
  ]
]

faucet-Marked :
    (a : AccountId) (req : DepositRequest) (e : Engine) → Marked e.ledger (deposit a req e).1.ledger
unfolding deposit
faucet-Marked a req e =
    elim (Option-cases (checked_add (Ledger.held a req.currency e.ledger) req.amount)) [
      | inl overflow ↦ rw (overflow, deposit) (same-Marked e.ledger)
      | inr (after, fits) ↦ elim (Bool-cases (ltb (e.limits.deposit_ceiling req.currency) after)) [
        | inl beyond ↦
            let same : e.ledger ≡ (deposit a req e).1.ledger = ground arith in
            subst (Marked e.ledger) same (same-Marked e.ledger)
        | inr within ↦
            let same : (Ledger.deposit req.currency a req.amount e.ledger).1
                ≡ (deposit a req e).1.ledger =
              ground arith in
            subst (Marked e.ledger) same (deposit-Marked a req.currency req.amount e.ledger)
      ]
    ]

place-Marked :
    (a : AccountId) (req : OrderRequest) (e : Engine) (p : Option (Result MatchResponse × Engine))
    (o : Outcome)
    → place_order a req e ≡ p
    → dispatch a (Command.place req) e ≡ some o
    → Marked e.ledger o.2.ledger
unfolding dispatch placed
place-Marked a req e none o ep h = let panic : none ≡ some o = ground arith in cc
place-Marked a req e (some (ok res, e')) o ep h =
    let same : e' ≡ o.2 = ground arith in
    subst (λ (x : Engine). Marked e.ledger x.ledger) same
      (check-Marked a req (ok res) e' e (check_order a req e) refl ep)
place-Marked a req e (some (err x, e')) o ep h =
    let same : e' ≡ o.2 = ground arith in
    subst (λ (x : Engine). Marked e.ledger x.ledger) same
      (check-Marked a req (err x) e' e (check_order a req e) refl ep)

cancel-Marked :
    (a : AccountId) (req : CancelRequest) (e : Engine)
    (p : Option ((Pair × Order × List LevelDelta) × Engine)) (o : Outcome)
    → cancel_order a req e ≡ p
    → dispatch a (Command.cancel req) e ≡ some o
    → Marked e.ledger o.2.ledger
unfolding dispatch
cancel-Marked a req e none o ep h =
    let same : e ≡ o.2 = ground arith in
    subst (λ (x : Engine). Marked e.ledger x.ledger) same (same-Marked e.ledger)
cancel-Marked a req e (some (r, e')) o ep h =
    let same : e' ≡ o.2 = ground arith in
    subst (λ (x : Engine). Marked e.ledger x.ledger) same (cancel_order-Marked a req e r e' ep)

-- Every entry that a command changes is marked.
pub dispatch-Marked :
    (a : AccountId) (c : Command) (e : Engine) (o : Outcome)
    → dispatch a c e ≡ some o
    → Marked e.ledger o.2.ledger
unfolding dispatch
dispatch-Marked a (Command.place req) e o h = place-Marked a req e (place_order a req e) o refl h
dispatch-Marked a (Command.cancel req) e o h = cancel-Marked a req e (cancel_order a req e) o refl h
dispatch-Marked a (Command.deposit req) e o h =
    let same : (deposit a req e).1 ≡ o.2 = ground arith in
    subst (λ (x : Engine). Marked e.ledger x.ledger) same (faucet-Marked a req e)
dispatch-Marked a (Command.withdraw req) e o h =
    let same : (Ledger.withdraw a req.currency req.amount e.ledger).1 ≡ o.2.ledger = ground arith in
    subst (Marked e.ledger) same (withdraw-Marked a req.currency req.amount e.ledger)
dispatch-Marked a (Command.list_pair p) e o h =
    let same : e.ledger ≡ o.2.ledger = ground arith in
    subst (Marked e.ledger) same (same-Marked e.ledger)
dispatch-Marked a (Command.delist_pair p) e o h =
    let same : e.ledger ≡ o.2.ledger = ground arith in
    subst (Marked e.ledger) same (same-Marked e.ledger)
