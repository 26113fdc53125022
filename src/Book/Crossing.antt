-- ===== src/Book/Crossing.antt =====
-- A book is never crossed: every bid stays below every ask.
use mathlib.Core.List.{reverse-cons}
use cex_matching_engine.Prelude.{
  ℕ, ◌+◌, ◌-◌, ◌<◌, ◌≡◌, refl, sym, ap, ◌∙◌, arith, List, [], ◌∷◌, ◌++◌, subst, nat_eqb,
  nat_eqb_iff, Bool, true, false, if◌then◌else◌, Bool-cases, inl, inr, reverse, sum_of-append,
}
use cex_matching_engine.Prelude.BTreeMap
use cex_matching_engine.Prelude.BTreeMap.{IsSorted, Above}
use cex_matching_engine.Book.Types.{bid, ask, Order, OrderBook}
use cex_matching_engine.Book.Fills.{left_over, volume}
use cex_matching_engine.Book.Reach.{crosses, reachable, swept, left_over-cons}
use cex_matching_engine.Book.Sides.{Level}

abbrev pub has_price : ℕ → List Level → Bool
has_price p [] = false
has_price p (l ∷ ls) = if nat_eqb p l.0 then true else has_price p ls

abbrev pub IsUncrossed : OrderBook → Type 0
IsUncrossed book = (p q : ℕ) → has_price p book.bids ≡ true → has_price q book.asks ≡ true → p < q

pub has_price-insert :
    (p k : ℕ) (v : List Order) (m : List Level)
    → has_price p (BTreeMap.insert k v m) ≡ (if nat_eqb p k then true else has_price p m)
unfolding BTreeMap.insert
has_price-insert p k v [] = refl
has_price-insert p k v ((j, w) ∷ m) =
    ground (arith, has_price-insert p k v m, nat_eqb_iff p k, nat_eqb_iff p j)

has_price-append :
    (p : ℕ) (m : List Level) (l : Level)
    → has_price p (m ++ l ∷ []) ≡ (if nat_eqb p l.0 then true else has_price p m)
has_price-append p [] l = refl
has_price-append p (x ∷ m) l = ground (arith, has_price-append p m l)

pub has_price-reverse : (p : ℕ) (m : List Level) → has_price p (reverse m) ≡ has_price p m
has_price-reverse p [] = refl
has_price-reverse p (l ∷ m) =
    ap (has_price p) (reverse-cons l m)
    ∙ has_price-append p (reverse m) l
    ∙ ap (λ b. if nat_eqb p l.0 then true else b) (has_price-reverse p m)

-- What is left after a sweep was there before.
pub has_price-swept :
    (p n : ℕ) (t : Order) (ls : List Level)
    → has_price p (swept n t ls) ≡ true
    → has_price p ls ≡ true
unfolding swept
has_price-swept p n t [] h = h
has_price-swept p n t ((k, q) ∷ ls) h = ground (arith, has_price-swept p (n - volume q) t ls)

-- The levels that an order reaches stand before those that it does not.
abbrev pub BestFirst : Order → List Level → Type 0
BestFirst t [] = Unit
BestFirst t (l ∷ ls) =
    ((p : ℕ) → has_price p ls ≡ true → crosses t p ≡ true → crosses t l.0 ≡ true) × BestFirst t ls

-- Behind the first level out of reach all levels are.
beyond_first :
    (p : ℕ) (t : Order) (l : Level) (ls : List Level)
    → BestFirst t (l ∷ ls)
    → crosses t l.0 ≡ false
    → has_price p (l ∷ ls) ≡ true
    → crosses t p ≡ false
beyond_first p t l ls b far h = elim (Bool-cases (crosses t p)) [
  | inr outside ↦ outside
  | inl inside ↦ elim (Bool-cases (nat_eqb p l.0)) [
    | inl first ↦ ap (crosses t) ((nat_eqb_iff p l.0).0 first) ∙ far
    | inr later ↦
        let there : has_price p ls ≡ true = ground arith in let near = b.0 p there inside in cc
  ]
]

next_swept :
    (p n : ℕ) (t : Order) (k : ℕ) (q : List Order) (ls : List Level)
    → crosses t k ≡ true
    → volume q < n
    → (r : List Order) → left_over n q ≡ r
    → has_price p (swept n t ((k, q) ∷ ls)) ≡ true
    → has_price p (swept (n - volume q) t ls) ≡ true
unfolding swept
next_swept p n t k q ls near v [] e h = ground arith
next_swept p n t k q ls near v (o ∷ r) e h = let full = left_over-cons n q o r e in ground arith

-- An order that is not filled leaves no level within its reach.
pub swept-beyond :
    (p n : ℕ) (t : Order) (ls : List Level)
    → BestFirst t ls
    → volume (reachable t ls) < n
    → has_price p (swept n t ls) ≡ true
    → crosses t p ≡ false
unfolding swept reachable
swept-beyond p n t [] b v h = cc
swept-beyond p n t ((k, q) ∷ ls) b v h = elim (Bool-cases (crosses t k)) [
  | inr far ↦ beyond_first p t (k, q) ls b far (has_price-swept p n t ((k, q) ∷ ls) h)
  | inl near ↦
      let more : volume q + volume (reachable t ls) < n = omega (
        arith,
        sum_of-append (λ (o : Order). o.remaining_size) q (reachable t ls),
        subst (λ b. volume (if b then q ++ reachable t ls else []) < n) near v,
      ) in
      swept-beyond p (n - volume q) t ls b.1 (omega (arith, more))
        (next_swept p n t k q ls near (omega (arith, more)) (left_over n q) refl h)
]

has_price-Above : (k p : ℕ) (m : List Level) → Above k m → has_price p m ≡ true → k < p
has_price-Above k p [] a h = cc
has_price-Above k p (l ∷ m) a h = ground (arith, a, has_price-Above k p m)

pub BestFirst-asks : (t : Order) (m : List Level) → t.side ≡ bid → IsSorted m → BestFirst t m
BestFirst-asks t [] e s = tt
BestFirst-asks t (l ∷ m) e s = (
  (λ p there near. let above = has_price-Above l.0 p m s.0 there in ground arith),
  BestFirst-asks t m e s.1,
)

BestFirst-append :
    (t : Order) (ls : List Level) (l : Level)
    → ((p : ℕ) → has_price p ls ≡ true → crosses t l.0 ≡ true → crosses t p ≡ true)
    → BestFirst t ls
    → BestFirst t (ls ++ l ∷ [])
BestFirst-append t [] l h b = ((λ p there near. cc), tt)
BestFirst-append t (x ∷ ls) l h b = (
  (λ p there near. elim (Bool-cases (nat_eqb p l.0)) [
    | inl last ↦
        h x.0 (ground (arith, nat_eqb_iff x.0 x.0))
          (subst (λ k. crosses t k ≡ true) ((nat_eqb_iff p l.0).0 last) near)
    | inr inner ↦ b.0 p (ground (arith, has_price-append p ls l)) near
  ]),
  BestFirst-append t ls l (λ p there near. h p (ground arith) near) b.1,
)

pub BestFirst-bids :
    (t : Order) (m : List Level) → t.side ≡ ask → IsSorted m → BestFirst t (reverse m)
BestFirst-bids t [] e s = tt
BestFirst-bids t (l ∷ m) e s = subst (BestFirst t) (sym (reverse-cons l m)) (
    BestFirst-append t (reverse m) l
      (λ p there near.
        let above = has_price-Above l.0 p m s.0 (sym (has_price-reverse p m) ∙ there) in
        ground arith)
      (BestFirst-bids t m e s.1))
