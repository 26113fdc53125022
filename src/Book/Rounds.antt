-- ===== src/Book/Rounds.antt =====
-- One round of the outer loop of `add_order`, and its tests.
use mathlib.Core.List.{append-nil}
use cex_matching_engine.Prelude.{
  ℕ, zero, suc, ◌-◌, ◌<◌, ◌≡◌, refl, none, some, List, [], ◌∷◌, ◌++◌, map, arith, ap, sym, ◌∙◌,
  true, false, subst, reverse,
}
use cex_matching_engine.Prelude.BTreeMap.{IsSorted}
use cex_matching_engine.Market.{Pair}
use cex_matching_engine.Book.Types.{Order, OrderBook, Side, bid, ask}
use cex_matching_engine.Book.Matching.{Run, next_level, match_queue, match_level, sweep}
use cex_matching_engine.Book.Fills.{fills, left_over, volume}
use cex_matching_engine.Book.Sides.{
  Level, best_first, own, facing, put_first, best_level-none, best_level-some, put_level-first,
  put_level-IsSorted, put_level-own,
}
use cex_matching_engine.Book.Queue.{with_remaining, fill_trade, Matched, match_queue-Matched}
use cex_matching_engine.Book.Reach.{crosses, out_of_reach-crosses, reachable, swept}

pub record Swept (pair : Pair) (run : Run) (ls : List Level) (run' : Run) : Type 0 where
  pub order :
      run'.order
      ≡ with_remaining (run.order.remaining_size - volume (reachable run.order ls)) run.order
  pub trades :
      run'.trades
      ≡ run.trades
        ++ map (fill_trade pair run.order) (fills run.order.remaining_size (reachable run.order ls))
  pub levels : best_first run.order.side run'.book ≡ swept run.order.remaining_size run.order ls
  pub own_side : own run.order.side run'.book ≡ own run.order.side run.book
  pub sorted : IsSorted (facing run.order.side run'.book)

-- One round, against the level `(p, q)`.
pub record Round (pair : Pair) (run : Run) (p : ℕ) (q : List Order) (ls : List Level) (run' : Run)
    : Type 0 where
  pub order : run'.order ≡ with_remaining (run.order.remaining_size - volume q) run.order
  pub trades :
      run'.trades ≡ run.trades ++ map (fill_trade pair run.order) (fills run.order.remaining_size q)
  pub levels :
      best_first run.order.side run'.book ≡ put_first p (left_over run.order.remaining_size q) ls
  pub own_side : own run.order.side run'.book ≡ own run.order.side run.book
  pub sorted : IsSorted (facing run.order.side run'.book)

module _ (b b' : OrderBook) (eb : b'.bids ≡ b.bids) (ea : b'.asks ≡ b.asks) where
  pub same_best_first : (s : Side) → best_first s b' ≡ best_first s b
  same_best_first bid = ea
  same_best_first ask = ap reverse eb

  pub same_facing : (s : Side) → facing s b' ≡ facing s b
  same_facing bid = ea
  same_facing ask = eb

  pub same_own : (s : Side) → own s b' ≡ own s b
  same_own bid = eb
  same_own ask = ea

pub match_level-Round :
    (pair : Pair) (run : Run) (p : ℕ) (q : List Order) (ls : List Level)
    → IsSorted (facing run.order.side run.book)
    → best_first run.order.side run.book ≡ (p, q) ∷ ls
    → Round pair run p q ls (match_level pair p q run)
unfolding match_level
match_level-Round pair run p q ls sorted e =
    let s = run.order.side in
    let (q', run') = match_queue pair q run in
    let m : Matched pair run q q' run' = match_queue-Matched pair q run in
    let sorted' = subst IsSorted (sym (same_facing run.book run'.book m.bids m.asks s)) sorted in
    record {
      order = m.order;
      trades = m.trades;
      levels =
          put_level-first s run'.book p q q' ls sorted'
            (same_best_first run.book run'.book m.bids m.asks s ∙ e)
          ∙ ap (λ x. put_first p x ls) m.queue;
      own_side = put_level-own s run'.book p q' ∙ same_own run.book run'.book m.bids m.asks s;
      sorted = put_level-IsSorted s run'.book p q' sorted';
    }

pub next_level-filled : (run : Run) → run.order.remaining_size ≡ 0 → next_level run ≡ none
unfolding next_level
next_level-filled run e = rw e

pub sweep-filled :
    (fuel : ℕ) (pair : Pair) (run : Run) → run.order.remaining_size ≡ 0 → sweep fuel pair run ≡ run
unfolding sweep
sweep-filled zero pair run e = refl
sweep-filled (suc fuel) pair run e = rw (next_level-filled run e, sweep)

pub sweep-none :
    (fuel : ℕ) (pair : Pair) (run : Run) → next_level run ≡ none → sweep (suc fuel) pair run ≡ run
unfolding sweep
sweep-none fuel pair run e = rw (e, sweep)

pub sweep-some :
    (fuel : ℕ) (pair : Pair) (run : Run) (p : ℕ) (q : List Order)
    → next_level run ≡ some (p, q)
    → sweep (suc fuel) pair run ≡ sweep fuel pair (match_level pair p q run)
unfolding sweep
sweep-some fuel pair run p q e = rw (e, sweep)

module _ (run : Run) where
  pub next_level-empty : best_first run.order.side run.book ≡ [] → next_level run ≡ none
  unfolding next_level
  next_level-empty e = ground (arith, best_level-none run.order.side run.book e)

  pub next_level-beyond :
      (p : ℕ) (q : List Order) (ls : List Level)
      → best_first run.order.side run.book ≡ (p, q) ∷ ls
      → crosses run.order p ≡ false
      → next_level run ≡ none
  unfolding next_level
  next_level-beyond p q ls e far =
      ground (
        arith,
        best_level-some run.order.side run.book (p, q) ls e,
        out_of_reach-crosses run.order p,
      )

  pub next_level-some :
      (p : ℕ) (q : List Order) (ls : List Level)
      → best_first run.order.side run.book ≡ (p, q) ∷ ls
      → 0 < run.order.remaining_size
      → crosses run.order p ≡ true
      → next_level run ≡ some (p, q)
  unfolding next_level
  next_level-some p q ls e some_left near =
      ground (
        arith,
        best_level-some run.order.side run.book (p, q) ls e,
        out_of_reach-crosses run.order p,
      )

-- A loop that makes no round.
pub Swept-stop :
    (pair : Pair) (run : Run) (ls : List Level)
    → best_first run.order.side run.book ≡ ls
    → IsSorted (facing run.order.side run.book)
    → fills run.order.remaining_size (reachable run.order ls) ≡ []
    → run.order.remaining_size - volume (reachable run.order ls) ≡ run.order.remaining_size
    → swept run.order.remaining_size run.order ls ≡ ls
    → Swept pair run ls run
Swept-stop pair run ls e sorted nothing same kept = record {
  order = rw same;
  trades = rw nothing (sym (append-nil run.trades));
  levels = e ∙ sym kept;
  own_side = refl;
  sorted = sorted;
}
