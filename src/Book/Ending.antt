-- ===== src/Book/Ending.antt =====
-- The outer loop of `add_order` ends by its own tests: the fuel is never used up.
use cex_matching_engine.Prelude.{
  ℕ, zero, suc, ◌<◌, ◌≡◌, refl, none, sym, ap, ◌∙◌, List, [], ◌∷◌, arith, nat_eqb, subst, length,
  Bool-cases, inl, inr,
}
use cex_matching_engine.Prelude.BTreeMap.{IsSorted}
use cex_matching_engine.Market.{AccountId, Pair}
use cex_matching_engine.Book.Types.{Order, OrderRequest, OrderBook}
use cex_matching_engine.Book.Matching.{Run, match_level, sweep, next_level, run_order, new_order}
use cex_matching_engine.Book.Fills.{left_over}
use cex_matching_engine.Book.Sides.{Level, best_first, facing, put_first}
use cex_matching_engine.Book.Reach.{crosses, left_over-cons}
use cex_matching_engine.Book.Rounds.{
  Round, sweep-none, sweep-filled, sweep-some, next_level-filled, next_level-empty,
  next_level-beyond, next_level-some, match_level-Round,
}
use cex_matching_engine.Book.Priority.{sweep_fuel-enough}

-- After a round the loop goes on, or the taker is filled.
sweep_ends_next :
    (fuel : ℕ) (pair : Pair) (run r₁ : Run) (p : ℕ) (q : List Order) (ls : List Level)
    → Round pair run p q ls r₁
    → (best_first r₁.order.side r₁.book ≡ ls
        → IsSorted (facing r₁.order.side r₁.book)
        → next_level (sweep fuel pair r₁) ≡ none)
    → (l : List Order) → left_over run.order.remaining_size q ≡ l
    → next_level (sweep fuel pair r₁) ≡ none
sweep_ends_next fuel pair run r₁ p q ls round ih [] used =
    let side : r₁.order.side ≡ run.order.side = ap (λ (o : Order). o.side) round.order in
    ih (ap (λ s. best_first s r₁.book) side ∙ round.levels ∙ ap (λ l. put_first p l ls) used)
      (subst (λ s. IsSorted (facing s r₁.book)) (sym side) round.sorted)
sweep_ends_next fuel pair run r₁ p q ls round ih (o ∷ r) left =
    let full = left_over-cons run.order.remaining_size q o r left in
    let filled : r₁.order.remaining_size ≡ 0 = ground (arith, round.order) in
    rw (sweep-filled fuel pair r₁ filled) (next_level-filled r₁ filled)

sweep_ends :
    (fuel : ℕ) (pair : Pair) (run : Run) (ls : List Level)
    → best_first run.order.side run.book ≡ ls
    → IsSorted (facing run.order.side run.book)
    → length ls < fuel
    → next_level (sweep fuel pair run) ≡ none
sweep_ends zero pair run ls e sorted h = elim h [ ]
sweep_ends (suc fuel) pair run [] e sorted h =
    rw (sweep-none fuel pair run (next_level-empty run e)) (next_level-empty run e)
sweep_ends (suc fuel) pair run ((p, q) ∷ ls) e sorted h =
    elim (Bool-cases (nat_eqb run.order.remaining_size 0)) [
      | inl full ↦
          let filled : run.order.remaining_size ≡ 0 = ground arith in
          rw (sweep-filled (suc fuel) pair run filled) (next_level-filled run filled)
      | inr more ↦ elim (Bool-cases (crosses run.order p)) [
        | inr far ↦
            let beyond = next_level-beyond run p q ls e far in
            rw (sweep-none fuel pair run beyond) beyond
        | inl near ↦
            rw (sweep-some fuel pair run p q (next_level-some run p q ls e (ground arith) near)) (
              sweep_ends_next fuel pair run (match_level pair p q run) p q ls
                (match_level-Round pair run p q ls sorted e)
                (λ e' s'. sweep_ends fuel pair (match_level pair p q run) ls e' s' (omega arith))
                (left_over run.order.remaining_size q) refl)
      ]
    ]

-- From a book whose other side is in order, the outer loop of `add_order` ends by its own tests: the
-- taker is filled, or there is no level left, or the best one is out of reach.
pub run_order_ends :
    (order_id : ℕ) (account_id : AccountId) (req : OrderRequest) (book : OrderBook)
    → IsSorted (facing req.side book)
    → next_level (run_order order_id account_id req book) ≡ none
unfolding run_order new_order
run_order_ends order_id account_id req book sorted =
    sweep_ends _ req.pair _ (best_first req.side book) refl sorted (sweep_fuel-enough req.side book)
