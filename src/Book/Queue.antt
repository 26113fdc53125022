-- ===== src/Book/Queue.antt =====
-- The inner loop of `add_order`: a queue is matched as `fills` and `left_over` say.
use cex_matching_engine.Prelude.{
  ℕ, ◌-◌, ◌≡◌, refl, min, List, [], ◌∷◌, ◌++◌, map, arith, nat_eqb, sym, ◌<◌, Bool-cases, ◌≤◌, inl,
  inr,
}
use mathlib.Core.List.{append-nil, append_assoc}
use cex_matching_engine.Market.{Pair}
use cex_matching_engine.Book.Types.{Order, Trade}
use cex_matching_engine.Book.Matching.{
  Run, trade_of, maker_after, taker_after, match_front, drop_index, match_queue,
}
use cex_matching_engine.Book.Fills.{Fill, fills, left_over, volume, fills-zero}

-- the taker with another remaining size
abbrev pub with_remaining : ℕ → Order → Order
with_remaining n t = record t { remaining_size = n }

-- The trade that a fill is recorded as, at the price of the maker. It does not depend on what the taker has left.
abbrev pub fill_trade : Pair → Order → Fill → Trade
fill_trade pair taker f = record {
  pair = pair;
  price = f.0.price;
  qty = f.1;
  maker_id = f.0.id;
  taker_id = taker.id;
  taker_side = taker.side;
  maker_account = f.0.account_id;
  taker_account = taker.account_id;
}

trade_of-fill : (pair : Pair) (t m : Order) (q : ℕ) → trade_of pair t m q ≡ fill_trade pair t (m, q)
unfolding trade_of
trade_of-fill pair t m q = refl

pub map-fill_trade :
    (pair : Pair) (n : ℕ) (t : Order) (fs : List Fill)
    → map (fill_trade pair (with_remaining n t)) fs ≡ map (fill_trade pair t) fs
map-fill_trade pair n t [] = refl
map-fill_trade pair n t (f ∷ fs) = λ i. fill_trade pair t f ∷ map-fill_trade pair n t fs i

taker_after-eq :
    (t m : Order) → taker_after t m ≡ with_remaining (t.remaining_size - m.remaining_size) t
unfolding taker_after
taker_after-eq t m = ground arith

maker_after-eq :
    (t m : Order) → (maker_after t m).remaining_size ≡ m.remaining_size - t.remaining_size
unfolding maker_after
maker_after-eq t m = ground arith

-- What a run over a queue of makers has come to.
pub record Matched (pair : Pair) (run : Run) (q : List Order) (q' : List Order) (run' : Run)
    : Type 0 where
  pub queue : q' ≡ left_over run.order.remaining_size q
  pub order : run'.order ≡ with_remaining (run.order.remaining_size - volume q) run.order
  pub trades :
      run'.trades ≡ run.trades ++ map (fill_trade pair run.order) (fills run.order.remaining_size q)
  pub bids : run'.book.bids ≡ run.book.bids
  pub asks : run'.book.asks ≡ run.book.asks

filled_first_trades :
    (pair : Pair) (m : Order) (q q' : List Order) (run run' : Run)
    → 0 < run.order.remaining_size
    → Matched pair (drop_index m.id (match_front pair m run)) q q' run'
    → run'.trades
      ≡ run.trades ++ map (fill_trade pair run.order) (fills run.order.remaining_size (m ∷ q))
unfolding match_front drop_index fills
filled_first_trades pair m q q' run run' some_left h =
    let n : ℕ = run.order.remaining_size in
    let t : Trade = fill_trade pair run.order (m, min n m.remaining_size) in
    ground (
      arith,
      h.trades,
      taker_after-eq run.order m,
      trade_of-fill pair run.order m (min n m.remaining_size),
      map-fill_trade pair (n - m.remaining_size) run.order (fills (n - m.remaining_size) q),
      append_assoc run.trades (t ∷ [])
          (map (fill_trade pair run.order) (fills (n - m.remaining_size) q)),
    )

-- One round that fills the maker.
filled_first :
    (pair : Pair) (m : Order) (q q' : List Order) (run run' : Run)
    → 0 < run.order.remaining_size
    → m.remaining_size ≤ run.order.remaining_size
    → Matched pair (drop_index m.id (match_front pair m run)) q q' run'
    → Matched pair run (m ∷ q) q' run'
unfolding match_front drop_index left_over fills taker_after
filled_first pair m q q' run run' some_left covered h = record {
  queue = ground (arith, h.queue);
  order = ground (arith, h.order);
  trades = filled_first_trades pair m q q' run run' some_left h;
  bids = h.bids;
  asks = h.asks;
}

-- A round that does not fill the maker fills the taker.
filled_last :
    (pair : Pair) (m : Order) (q : List Order) (run : Run)
    → 0 < run.order.remaining_size
    → run.order.remaining_size < m.remaining_size
    → Matched pair run (m ∷ q) (maker_after run.order m ∷ q) (match_front pair m run)
unfolding match_front left_over fills taker_after maker_after
filled_last pair m q run some_left covered = record {
  queue = ground arith;
  order = ground arith;
  trades = ground (
    arith,
    fills-zero q,
    trade_of-fill pair run.order m (min run.order.remaining_size m.remaining_size),
  );
  bids = refl;
  asks = refl;
}

pub match_queue-Matched :
    (pair : Pair) (q : List Order) (run : Run)
    → let (q', run') = match_queue pair q run in Matched pair run q q' run'
unfolding match_queue left_over fills
match_queue-Matched pair [] run = record {
  queue = refl;
  order = ground arith;
  trades = sym (append-nil run.trades);
  bids = refl;
  asks = refl;
}
match_queue-Matched pair (m ∷ q) run =
    let ih = match_queue-Matched pair q (drop_index m.id (match_front pair m run)) in
    elim (Bool-cases (nat_eqb run.order.remaining_size 0)) [
      | inl e ↦ rw e (record {
        queue = ground arith;
        order = ground arith;
        trades = ground (arith, append-nil run.trades);
        bids = refl;
        asks = refl;
      })
      | inr e ↦ rw e (elim (Bool-cases (nat_eqb (maker_after run.order m).remaining_size 0)) [
        | inl d ↦ rw d (
            filled_first pair m q _ run _ (ground arith)
              (ground (arith, maker_after-eq run.order m)) ih)
        | inr d ↦
            rw d
              (filled_last pair m q run (ground arith) (ground (arith, maker_after-eq run.order m)))
      ])
    ]
