-- ===== src/Book/Sides.antt =====
-- Either side of a book read best price first, and the map operations of the outer loop as
-- operations on that list.
use mathlib.Core.List.{reverse-cons, reverse-reverse, reverse-append}
use cex_matching_engine.Prelude.{
  ℕ, ◌≡◌, refl, sym, ap, ◌∙◌, none, some, List, [], ◌∷◌, ◌++◌, reverse, subst,
}
use cex_matching_engine.Prelude.BTreeMap
use cex_matching_engine.Prelude.BTreeMap.{BTreeMap, IsSorted}
use cex_matching_engine.Book.Types.{Side, bid, ask, Order, OrderBook}
use cex_matching_engine.Book.Levels.{best_level}
use cex_matching_engine.Book.Matching.{put_level}

abbrev pub Level : Type 0
Level = ℕ × List Order

-- The map that an incoming order of a side is matched against.
abbrev pub facing : Side → OrderBook → BTreeMap (List Order)
facing bid book = book.asks
facing ask book = book.bids

-- The map in which an order of a side rests.
abbrev pub own : Side → OrderBook → BTreeMap (List Order)
own bid book = book.bids
own ask book = book.asks

-- Its levels, best first: the lowest ask for a bid, the highest bid for an ask.
abbrev pub best_first : Side → OrderBook → List Level
best_first bid book = book.asks
best_first ask book = reverse book.bids

abbrev pub put_first : ℕ → List Order → List Level → List Level
put_first p [] ls = ls
put_first p (o ∷ q) ls = (p, o ∷ q) ∷ ls

bids_of_reverse :
    (m : List Level) (x : Level) (ls : List Level) → reverse m ≡ x ∷ ls → m ≡ reverse ls ++ x ∷ []
bids_of_reverse m x ls e = sym (reverse-reverse m) ∙ ap reverse e ∙ reverse-cons x ls

pub best_level-none :
    (s : Side) (book : OrderBook) → best_first s book ≡ [] → best_level s book ≡ none
unfolding best_level BTreeMap.first_key_value BTreeMap.last_key_value
best_level-none bid book e = rw e
best_level-none ask book e =
    let empty : book.bids ≡ [] = sym (reverse-reverse book.bids) ∙ ap reverse e in rw empty

pub best_level-some :
    (s : Side) (book : OrderBook) (x : Level) (ls : List Level)
    → best_first s book ≡ x ∷ ls
    → best_level s book ≡ some x
unfolding best_level BTreeMap.first_key_value
best_level-some bid book x ls e = rw e
best_level-some ask book x ls e =
    rw (bids_of_reverse book.bids x ls e) (BTreeMap.last_key_value-snoc (reverse ls) x)

pub put_level-first :
    (s : Side) (book : OrderBook) (p : ℕ) (q q' : List Order) (ls : List Level)
    → IsSorted (facing s book)
    → best_first s book ≡ (p, q) ∷ ls
    → best_first s (put_level s p q' book) ≡ put_first p q' ls
unfolding put_level BTreeMap.pop_first
put_level-first bid book p q [] ls sorted e = rw e
put_level-first bid book p q (o ∷ r) ls sorted e = rw e (BTreeMap.insert-head p (o ∷ r) q ls)
put_level-first ask book p q [] ls sorted e =
    rw (bids_of_reverse book.bids (p, q) ls e, BTreeMap.pop_last-snoc (reverse ls) (p, q))
      (reverse-reverse ls)
put_level-first ask book p q (o ∷ r) ls sorted e =
    let split = bids_of_reverse book.bids (p, q) ls e in
    let below = BTreeMap.Below-of_IsSorted (reverse ls) p q (subst IsSorted split sorted) in
    rw (split, BTreeMap.insert-snoc p (o ∷ r) q (reverse ls) below)
      (reverse-append (reverse ls) ((p, o ∷ r) ∷ [])
        ∙ ap (λ x. (p, o ∷ r) ∷ x) (reverse-reverse ls))

pub put_level-IsSorted :
    (s : Side) (book : OrderBook) (p : ℕ) (q : List Order)
    → IsSorted (facing s book)
    → IsSorted (facing s (put_level s p q book))
unfolding put_level
put_level-IsSorted bid book p [] h = BTreeMap.pop_first-IsSorted book.asks h
put_level-IsSorted bid book p (o ∷ q) h = BTreeMap.insert-IsSorted p (o ∷ q) book.asks h
put_level-IsSorted ask book p [] h = BTreeMap.pop_last-IsSorted book.bids h
put_level-IsSorted ask book p (o ∷ q) h = BTreeMap.insert-IsSorted p (o ∷ q) book.bids h

pub put_level-own :
    (s : Side) (book : OrderBook) (p : ℕ) (q : List Order)
    → own s (put_level s p q book) ≡ own s book
unfolding put_level
put_level-own bid book p [] = refl
put_level-own bid book p (o ∷ q) = refl
put_level-own ask book p [] = refl
put_level-own ask book p (o ∷ q) = refl
