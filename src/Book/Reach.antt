-- ===== src/Book/Reach.antt =====
-- Which makers an order reaches, and which levels it leaves.
use cex_matching_engine.Prelude.{
  ℕ, ◌-◌, ◌≤◌, ◌≡◌, refl, List, [], ◌∷◌, ◌++◌, arith, nat_eqb, if◌then◌else◌,
}
use cex_matching_engine.Book.Types.{Order, market, limit, bid, ask}
use cex_matching_engine.Prelude.{leb, Bool, true, not}
use cex_matching_engine.Book.Matching.{out_of_reach}
use cex_matching_engine.Book.Fills.{left_over, volume}
use cex_matching_engine.Book.Sides.{Level}
use cex_matching_engine.Book.Queue.{with_remaining}

-- Whether an order trades at a price: a market order at any, a limit order at its own or better.
abbrev pub crosses : Order → ℕ → Bool
crosses t p = elim t.order_type [
  | market ↦ true
  | limit ↦ elim t.side [ bid ↦ leb p t.price | ask ↦ leb t.price p ]
]

-- The test of the outer loop is that test.
pub out_of_reach-crosses : (t : Order) (p : ℕ) → out_of_reach t p ≡ not (crosses t p)
unfolding out_of_reach
out_of_reach-crosses t p = ground arith

-- The makers that an order can trade with, best first: the queues of the levels up to the first
-- that its limit does not reach.
unfoldable pub reachable : Order → List Level → List Order
reachable t [] = []
reachable t ((p, q) ∷ ls) = if crosses t p then q ++ reachable t ls else []

-- The levels that an order with `n` to fill leaves.
unfoldable pub swept : ℕ → Order → List Level → List Level
swept n t [] = []
swept n t ((p, q) ∷ ls) =
    let later = swept (n - volume q) t ls in
    if nat_eqb n 0
    then (p, q) ∷ ls
    else if crosses t p
    then elim (left_over n q) [ [] ↦ later | o ∷ r ↦ (p, o ∷ r) ∷ ls ]
    else (p, q) ∷ ls

pub left_over-cons :
    (n : ℕ) (q : List Order) (o : Order) (r : List Order) → left_over n q ≡ o ∷ r → n ≤ volume q
unfolding left_over
left_over-cons n [] o r e = cc
left_over-cons n (m ∷ q) o r e = ground (arith, left_over-cons (n - m.remaining_size) q o r)

pub reachable-with_remaining :
    (n : ℕ) (t : Order) (ls : List Level) → reachable (with_remaining n t) ls ≡ reachable t ls
unfolding reachable
reachable-with_remaining n t [] = refl
reachable-with_remaining n t ((p, q) ∷ ls) = rw (reachable-with_remaining n t ls)

pub swept-with_remaining :
    (k n : ℕ) (t : Order) (ls : List Level) → swept k (with_remaining n t) ls ≡ swept k t ls
unfolding swept
swept-with_remaining k n t [] = refl
swept-with_remaining k n t ((p, q) ∷ ls) =
    ground (arith, swept-with_remaining (k - volume q) n t ls)

pub swept-zero : (t : Order) (ls : List Level) → swept 0 t ls ≡ ls
unfolding swept
swept-zero t [] = refl
swept-zero t (x ∷ ls) = refl
