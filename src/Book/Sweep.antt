-- ===== src/Book/Sweep.antt =====
-- The outer loop of `add_order`: the levels within reach are matched as one list of makers, and the
-- fuel suffices, so that the loop ends by its own tests.
use mathlib.Core.List.{append-nil, map-append, append_assoc}
use cex_matching_engine.Prelude.{
  ℕ, zero, suc, ◌-◌, ◌<◌, ◌≡◌, refl, List, [], ◌∷◌, ◌++◌, map, arith, nat_eqb, ap, sym, ◌∙◌, true,
  false, subst, sum_of-append, length, Bool-cases, inl, inr,
}
use cex_matching_engine.Prelude.BTreeMap.{IsSorted}
use cex_matching_engine.Market.{Pair}
use cex_matching_engine.Book.Types.{Order}
use cex_matching_engine.Book.Matching.{Run, match_level, sweep}
use cex_matching_engine.Book.Fills.{fills, left_over, volume, fills-append, fills-zero}
use cex_matching_engine.Book.Sides.{Level, best_first, own, facing, put_first}
use cex_matching_engine.Book.Queue.{with_remaining, fill_trade, map-fill_trade}
use cex_matching_engine.Book.Rounds.{
  Round, Swept, Swept-stop, sweep-none, sweep-filled, next_level-empty, next_level-beyond,
  sweep-some, next_level-some, match_level-Round,
}
use cex_matching_engine.Book.Reach.{
  crosses, swept, reachable, swept-with_remaining, left_over-cons, reachable-with_remaining,
  swept-zero,
}

-- A round that uses up its level, and the rounds after it.
module _ (pair : Pair) (run r₁ r₂ : Run) (p : ℕ) (q : List Order) (ls : List Level)
    (some_left : 0 < run.order.remaining_size) (near : crosses run.order p ≡ true)
    (round : Round pair run p q ls r₁) where
  abbrev t : Order
  t = run.order

  abbrev n : ℕ
  n = run.order.remaining_size

  same_side : r₁.order.side ≡ t.side
  same_side = ap (λ (o : Order). o.side) round.order

  later_order :
      Swept pair r₁ ls r₂ → r₂.order ≡ with_remaining (n - volume (reachable t ((p, q) ∷ ls))) t
  unfolding reachable
  later_order h = ground (
    arith,
    h.order,
    round.order,
    near,
    reachable-with_remaining (n - volume q) t ls,
    sum_of-append (λ (o : Order). o.remaining_size) q (reachable t ls),
  )

  later_trades :
      Swept pair r₁ ls r₂
      → r₂.trades ≡ run.trades ++ map (fill_trade pair t) (fills n (reachable t ((p, q) ∷ ls)))
  unfolding reachable
  later_trades h = ground (
    arith,
    h.trades,
    round.trades,
    round.order,
    near,
    reachable-with_remaining (n - volume q) t ls,
    map-fill_trade pair (n - volume q) t (fills (n - volume q) (reachable t ls)),
    fills-append n q (reachable t ls),
    map-append (fill_trade pair t) (fills n q) (fills (n - volume q) (reachable t ls)),
    append_assoc run.trades (map (fill_trade pair t) (fills n q))
        (map (fill_trade pair t) (fills (n - volume q) (reachable t ls))),
  )

  later-Rounds-Swept : left_over n q ≡ [] → Swept pair r₁ ls r₂ → Swept pair run ((p, q) ∷ ls) r₂
  unfolding swept
  later-Rounds-Swept used h = record {
    order = later_order h;
    trades = later_trades h;
    levels =
        ap (λ s. best_first s r₂.book) (sym same_side)
        ∙ h.levels
        ∙ ap (λ (o : Order). swept o.remaining_size o ls) round.order
        ∙ swept-with_remaining (n - volume q) (n - volume q) t ls
        ∙ ground arith;
    own_side =
        ap (λ s. own s r₂.book) (sym same_side)
        ∙ h.own_side
        ∙ ap (λ s. own s r₁.book) same_side
        ∙ round.own_side;
    sorted = subst (λ s. IsSorted (facing s r₂.book)) same_side h.sorted;
  }

  last-Round-Swept :
      (o : Order) (r : List Order) → left_over n q ≡ o ∷ r → Swept pair run ((p, q) ∷ ls) r₁
  unfolding swept reachable
  last-Round-Swept o r left =
      let full = left_over-cons n q o r left in
      record {
        order = ground (
          arith,
          round.order,
          near,
          sum_of-append (λ (o : Order). o.remaining_size) q (reachable t ls),
        );
        trades = ground (
          arith,
          round.trades,
          near,
          fills-append n q (reachable t ls),
          fills-zero (reachable t ls),
          append-nil (fills n q),
        );
        levels = ground (arith, round.levels, near, left);
        own_side = round.own_side;
        sorted = round.sorted;
      }

filled-Swept :
    (pair : Pair) (run : Run) (ls : List Level)
    → best_first run.order.side run.book ≡ ls
    → IsSorted (facing run.order.side run.book)
    → run.order.remaining_size ≡ 0
    → Swept pair run ls run
filled-Swept pair run ls e sorted full =
    Swept-stop pair run ls e sorted
      (ap (λ k. fills k (reachable run.order ls)) full ∙ fills-zero (reachable run.order ls))
      (omega arith) (ap (λ k. swept k run.order ls) full ∙ swept-zero run.order ls)

beyond-Swept :
    (pair : Pair) (run : Run) (p : ℕ) (q : List Order) (ls : List Level)
    → best_first run.order.side run.book ≡ (p, q) ∷ ls
    → IsSorted (facing run.order.side run.book)
    → crosses run.order p ≡ false
    → Swept pair run ((p, q) ∷ ls) run
unfolding swept reachable fills
beyond-Swept pair run p q ls e sorted far =
    Swept-stop pair run ((p, q) ∷ ls) e sorted (ground arith) (ground arith) (ground arith)

empty-Swept :
    (pair : Pair) (run : Run)
    → best_first run.order.side run.book ≡ []
    → IsSorted (facing run.order.side run.book)
    → Swept pair run [] run
unfolding swept reachable fills
empty-Swept pair run e sorted = Swept-stop pair run [] e sorted refl (omega arith) refl

-- After a round the loop goes on with the next level, or the taker is filled.
after-Round-Swept :
    (fuel : ℕ) (pair : Pair) (run r₁ : Run) (p : ℕ) (q : List Order) (ls : List Level)
    → 0 < run.order.remaining_size
    → crosses run.order p ≡ true
    → Round pair run p q ls r₁
    → (best_first r₁.order.side r₁.book ≡ ls
        → IsSorted (facing r₁.order.side r₁.book)
        → Swept pair r₁ ls (sweep fuel pair r₁))
    → (l : List Order) → left_over run.order.remaining_size q ≡ l
    → Swept pair run ((p, q) ∷ ls) (sweep fuel pair r₁)
after-Round-Swept fuel pair run r₁ p q ls some_left near round ih [] used =
    let side : r₁.order.side ≡ run.order.side = ap (λ (o : Order). o.side) round.order in
    later-Rounds-Swept pair run r₁ _ p q ls some_left near round used (
      ih (ap (λ s. best_first s r₁.book) side ∙ round.levels ∙ ap (λ l. put_first p l ls) used)
        (subst (λ s. IsSorted (facing s r₁.book)) (sym side) round.sorted))
after-Round-Swept fuel pair run r₁ p q ls some_left near round ih (o ∷ r) left =
    let full = left_over-cons run.order.remaining_size q o r left in
    rw (sweep-filled fuel pair r₁ (ground (arith, round.order)))
      (last-Round-Swept pair run r₁ r₁ p q ls some_left near round o r left)

-- Whatever the loop starts from, with fuel above the number of levels it does what `reachable` and
-- `swept` say.
pub sweep-Swept :
    (fuel : ℕ) (pair : Pair) (run : Run) (ls : List Level)
    → best_first run.order.side run.book ≡ ls
    → IsSorted (facing run.order.side run.book)
    → length ls < fuel
    → Swept pair run ls (sweep fuel pair run)
sweep-Swept zero pair run ls e sorted h = elim h [ ]
sweep-Swept (suc fuel) pair run [] e sorted h =
    rw (sweep-none fuel pair run (next_level-empty run e)) (empty-Swept pair run e sorted)
sweep-Swept (suc fuel) pair run ((p, q) ∷ ls) e sorted h =
    elim (Bool-cases (nat_eqb run.order.remaining_size 0)) [
      | inl full ↦
          rw (sweep-filled (suc fuel) pair run (ground arith))
            (filled-Swept pair run ((p, q) ∷ ls) e sorted (ground arith))
      | inr more ↦ elim (Bool-cases (crosses run.order p)) [
        | inr far ↦
            rw (sweep-none fuel pair run (next_level-beyond run p q ls e far))
              (beyond-Swept pair run p q ls e sorted far)
        | inl near ↦
            rw (sweep-some fuel pair run p q (next_level-some run p q ls e (ground arith) near)) (
              after-Round-Swept fuel pair run (match_level pair p q run) p q ls (ground arith) near
                (match_level-Round pair run p q ls sorted e)
                (λ e' s'. sweep-Swept fuel pair (match_level pair p q run) ls e' s' (omega arith))
                (left_over run.order.remaining_size q) refl)
      ]
    ]
