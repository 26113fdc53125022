-- ===== src/Ledger/Settlement.antt =====
-- `settle` against what a trade promises: the buyer's reserved quote pays the seller, and the
-- seller's reserved base goes to the buyer, whoever of the two is the taker.
use cex_matching_engine.Prelude.{
  ℕ, ◌+◌, ◌*◌, ◌≤◌, ◌<◌, ◌≡◌, ◌≢◌, refl, some, arith, u64_mod, checked_mul,
}
use cex_matching_engine.Market.{AccountId, Currency, Pair}
use cex_matching_engine.Book.Types.{Side, bid, ask, Trade}
use cex_matching_engine.Ledger.{Ledger, balance_of, mark, move_funds, mark_trade, settle}
use cex_matching_engine.Ledger.Balances.{share, available_of, reserved_of}
use cex_matching_engine.Ledger.Writes.{
  available_of-bid, reserved_of-bid, total-bid, available_of-ask, reserved_of-ask, total-ask,
}
use cex_matching_engine.Ledger.Total.{total, worth-le-total}

abbrev pub buyer : Trade → AccountId
buyer t = elim t.taker_side [ bid ↦ t.taker_account | ask ↦ t.maker_account ]

abbrev pub seller : Trade → AccountId
seller t = elim t.taker_side [ bid ↦ t.maker_account | ask ↦ t.taker_account ]

-- What a trade takes from the reserve of an entry.
abbrev pub pays : Pair → Trade → AccountId → Currency → ℕ
pays pair t a c =
    share (buyer t) pair.quote (t.price * t.qty) a c + share (seller t) pair.base t.qty a c

-- What a trade adds to the available part of an entry.
abbrev pub receives : Pair → Trade → AccountId → Currency → ℕ
receives pair t a c =
    share (seller t) pair.quote (t.price * t.qty) a c + share (buyer t) pair.base t.qty a c

-- The reserves cover the trade, and no total of the ledger is out of range.
pub record Covers (pair : Pair) (t : Trade) (l : Ledger) : Type 0 where
  pub distinct : pair.base ≢ pair.quote
  pub quote_covered : t.price * t.qty ≤ reserved_of (buyer t) pair.quote l
  pub base_covered : t.qty ≤ reserved_of (seller t) pair.base l
  pub bounded : (c : Currency) → total c l < u64_mod

abbrev Paid : Pair → Trade → Ledger → Ledger → AccountId → Currency → Type 0
Paid pair t l l' a c =
    (reserved_of a c l' + pays pair t a c ≡ reserved_of a c l)
    × (available_of a c l' ≡ available_of a c l + receives pair t a c)
    × (total c l' ≡ total c l)

module _ (pair : Pair) (t : Trade) (l : Ledger) (v : Covers pair t l) (a : AccountId)
    (c : Currency) where
  abbrev cost : ℕ
  cost = t.price * t.qty

  move_funds-pays :
      (s : Side) → t.taker_side ≡ s → Paid pair t l (move_funds pair t (t.price * t.qty) l) a c
  unfolding move_funds
  move_funds-pays bid e =
      let pq : cost ≤ reserved_of t.taker_account pair.quote l = ground (arith, v.quote_covered) in
      let pb : t.qty ≤ reserved_of t.maker_account pair.base l = ground (arith, v.base_covered) in
      ground (
        arith,
        reserved_of-bid t.taker_account t.maker_account pair.base pair.quote cost t.qty l v.distinct
            v.bounded pq pb a c,
        available_of-bid t.taker_account t.maker_account pair.base pair.quote cost t.qty l
            v.distinct v.bounded pq pb a c,
        total-bid t.taker_account t.maker_account pair.base pair.quote cost t.qty l v.distinct
            v.bounded pq pb a c,
      )
  move_funds-pays ask e =
      let pq : cost ≤ reserved_of t.maker_account pair.quote l = ground (arith, v.quote_covered) in
      let pb : t.qty ≤ reserved_of t.taker_account pair.base l = ground (arith, v.base_covered) in
      ground (
        arith,
        reserved_of-ask t.taker_account t.maker_account pair.base pair.quote cost t.qty l v.distinct
            v.bounded pq pb a c,
        available_of-ask t.taker_account t.maker_account pair.base pair.quote cost t.qty l
            v.distinct v.bounded pq pb a c,
        total-ask t.taker_account t.maker_account pair.base pair.quote cost t.qty l v.distinct
            v.bounded pq pb a c,
      )

-- Where the reserves cover a trade in a pair of two currencies and no total is out of range,
-- settling it does not panic; at every entry the buyer's reserved quote and the seller's reserved
-- base fall by what the trade costs, the seller's available quote and the buyer's available base
-- rise by as much, and nothing else moves; and the total of every currency stays as it was.
pub settle-pays :
    (pair : Pair) (t : Trade) (l : Ledger)
    → Covers pair t l
    → (l' : Ledger) × (settle pair t l ≡ some l')
      × ((a : AccountId) (c : Currency)
          → (reserved_of a c l' + pays pair t a c ≡ reserved_of a c l)
            × (available_of a c l' ≡ available_of a c l + receives pair t a c)
            × (total c l' ≡ total c l))
unfolding settle checked_mul balance_of mark_trade mark total
settle-pays pair t l v =
    let l' = mark_trade pair t (move_funds pair t (t.price * t.qty) l) in
    (
      l',
      ground (arith, v.quote_covered, worth-le-total (buyer t) pair.quote l, v.bounded pair.quote),
      λ a c. move_funds-pays pair t l v a c t.taker_side refl,
    )
