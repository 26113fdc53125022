-- ===== src/Engine/Frame.antt =====
-- What the operations of the engine leave alone: the window of keys, the sequence number and the
-- limits, on every branch.
use cex_matching_engine.Prelude.{ℕ, ◌≡◌, refl, arith, Option, none, some, List}
use cex_matching_engine.Market.{AccountId, Pair}
use cex_matching_engine.Reject.{Result, ok, err}
use cex_matching_engine.Book.Types.{OrderRequest, MatchResponse, Order, LevelDelta}
use cex_matching_engine.Command.{Command, CancelRequest, DepositRequest}
use cex_matching_engine.Engine.State.{Engine}
use cex_matching_engine.Engine.Operations.{
  place_order, after_reserve, match_and_settle, matched, settled, deposit, cancel_order, cancelled,
  quote_amount, check_order, reserve_for,
}
use cex_matching_engine.Engine.Apply.{dispatch, placed, Outcome}

pub record Frame (e e' : Engine) : Type 0 where
  pub dedup : e'.dedup ≡ e.dedup
  pub next_seq : e'.next_seq ≡ e.next_seq
  pub limits : e'.limits ≡ e.limits

module _ (a : AccountId) (req : OrderRequest) (r : Result MatchResponse) (e' : Engine) where
  settled-Frame :
      (res : MatchResponse) (e : Engine) → settled a req res e ≡ some (r, e') → Frame e e'
  unfolding settled
  settled-Frame res e h = ground arith

  after_reserve-Frame :
      (u : Result (Unit {0})) (e : Engine) → after_reserve a req u e ≡ some (r, e') → Frame e e'
  unfolding after_reserve match_and_settle matched
  after_reserve-Frame (err x) e h = ground arith
  after_reserve-Frame (ok u) e h =
      let f = settled-Frame (matched a req e).0 (matched a req e).1 h in
      record { dedup = f.dedup; next_seq = f.next_seq; limits = f.limits }

  by_amount :
      (e : Engine) (c : Unit {0}) (q : Result ℕ)
      → check_order a req e ≡ ok c
      → quote_amount req e ≡ q
      → place_order a req e ≡ some (r, e')
      → Frame e e'
  unfolding place_order
  by_amount e c (err x) ec eq h = ground arith
  by_amount e c (ok n) ec eq h =
      let (reserved, l) = reserve_for a req n e.ledger in
      let f = after_reserve-Frame reserved (record e { ledger = l }) (ground arith) in
      record { dedup = f.dedup; next_seq = f.next_seq; limits = f.limits }

  by_check :
      (e : Engine) (c : Result (Unit {0}))
      → check_order a req e ≡ c
      → place_order a req e ≡ some (r, e')
      → Frame e e'
  unfolding place_order
  by_check e (err x) ec h = ground arith
  by_check e (ok u) ec h = by_amount e u (quote_amount req e) ec refl h

  place_order-Frame : (e : Engine) → place_order a req e ≡ some (r, e') → Frame e e'
  place_order-Frame e h = by_check e (check_order a req e) refl h

cancel_order-Frame :
    (a : AccountId) (req : CancelRequest) (e : Engine) (r : Pair × Order × List LevelDelta)
    (e' : Engine)
    → cancel_order a req e ≡ some (r, e')
    → Frame e e'
unfolding cancel_order cancelled
cancel_order-Frame a req e r e' h = ground arith

deposit-Frame : (a : AccountId) (req : DepositRequest) (e : Engine) → Frame e (deposit a req e).1
unfolding deposit
deposit-Frame a req e = ground arith

placed-Frame :
    (a : AccountId) (req : OrderRequest) (e : Engine) (p : Option (Result MatchResponse × Engine))
    (o : Outcome)
    → place_order a req e ≡ p
    → dispatch a (Command.place req) e ≡ some o
    → Frame e o.2
unfolding dispatch placed
placed-Frame a req e none o ep h = ground arith
placed-Frame a req e (some (ok res, e')) o ep h =
    ground (arith, place_order-Frame a req (ok res) e' e ep)
placed-Frame a req e (some (err x, e')) o ep h =
    ground (arith, place_order-Frame a req (err x) e' e ep)

cancelled-Frame :
    (a : AccountId) (req : CancelRequest) (e : Engine)
    (p : Option ((Pair × Order × List LevelDelta) × Engine)) (o : Outcome)
    → cancel_order a req e ≡ p
    → dispatch a (Command.cancel req) e ≡ some o
    → Frame e o.2
unfolding dispatch
cancelled-Frame a req e none o ep h = ground arith
cancelled-Frame a req e (some (r, e')) o ep h = ground (arith, cancel_order-Frame a req e r e' ep)

pub dispatch-Frame :
    (a : AccountId) (c : Command) (e : Engine) (o : Outcome) → dispatch a c e ≡ some o → Frame e o.2
unfolding dispatch
dispatch-Frame a (Command.place req) e o h = placed-Frame a req e (place_order a req e) o refl h
dispatch-Frame a (Command.cancel req) e o h =
    cancelled-Frame a req e (cancel_order a req e) o refl h
dispatch-Frame a (Command.deposit req) e o h = ground (arith, deposit-Frame a req e)
dispatch-Frame a (Command.withdraw req) e o h = ground arith
dispatch-Frame a (Command.list_pair p) e o h = ground arith
dispatch-Frame a (Command.delist_pair p) e o h = ground arith
