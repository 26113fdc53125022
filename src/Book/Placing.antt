-- ===== src/Book/Placing.antt =====
-- Where the orders of a book stand: no level is empty, and every order of a level has the side and
-- the price of the level.
use cex_matching_engine.Prelude.{
  ℕ, ◌≡◌, refl, arith, some, List, [], ◌∷◌, ◌++◌, All, All-append, subst, nat_eqb, nat_eqb_iff,
  Bool-cases, Option-cases, inl, inr, sym,
}
use cex_matching_engine.Prelude.HashMap
use cex_matching_engine.Prelude.BTreeMap
use cex_matching_engine.Prelude.BTreeMap.{BTreeMap}
use cex_matching_engine.Book.Types.{Side, bid, ask, Order, OrderBook, order_type_eqb, limit}
use cex_matching_engine.Book.Levels.{levels_of, best_level}
use cex_matching_engine.Book.Matching.{put_level, rest, rest_in, push_back}
use cex_matching_engine.Book.Cancel.{put_queue}

abbrev pub At : Side → ℕ → Order → Type 0
At s p o = (o.side ≡ s) × (o.price ≡ p)

abbrev pub StandsAt : Side → ℕ × List Order → Type 0
StandsAt s (p, []) = ⊥
StandsAt s (p, o ∷ queue) = All (At s p) (o ∷ queue)

pub record IsPlaced (book : OrderBook) : Type 0 where
  pub bids : All (StandsAt bid) book.bids
  pub asks : All (StandsAt ask) book.asks

pub StandsAt-All :
    (s : Side) (p : ℕ) (queue : List Order) → StandsAt s (p, queue) → All (At s p) queue
StandsAt-All s p [] h = tt
StandsAt-All s p (o ∷ queue) h = h

module _ {ℓ κ} {V : Type ℓ} (P : ℕ × V → Type κ) where
  insert-All : (k : ℕ) (v : V) (m : BTreeMap V) → P (k, v) → All P m → All P (BTreeMap.insert k v m)
  unfolding BTreeMap.insert
  insert-All k v [] h a = (h, tt)
  insert-All k v (x ∷ m) h a = ground (arith, insert-All k v m h a.1)

  remove-All : (k : ℕ) (m : BTreeMap V) → All P m → All P (BTreeMap.remove k m)
  unfolding BTreeMap.remove
  remove-All k [] a = tt
  remove-All k (x ∷ m) a = ground (arith, remove-All k m a.1)

  pop_first-All : (m : BTreeMap V) → All P m → All P (BTreeMap.pop_first m)
  unfolding BTreeMap.pop_first
  pop_first-All [] a = tt
  pop_first-All (x ∷ m) a = a.1

  pop_last-All : (m : BTreeMap V) → All P m → All P (BTreeMap.pop_last m)
  unfolding BTreeMap.pop_last
  pop_last-All [] a = tt
  pop_last-All (x ∷ []) a = tt
  pop_last-All (x ∷ y ∷ m) a = (a.0, pop_last-All (y ∷ m) a.1)

  get-All : (k : ℕ) (v : V) (m : BTreeMap V) → BTreeMap.get k m ≡ some v → All P m → P (k, v)
  unfolding BTreeMap.get
  get-All k v [] e a = cc
  get-All k v (x ∷ m) e a = elim (Bool-cases (nat_eqb k x.0)) [
    | inl here ↦ let same : x ≡ (k, v) = ground (arith, nat_eqb_iff k x.0) in subst P same a.0
    | inr other ↦ get-All k v m (ground arith) a.1
  ]

  first-All : (m : BTreeMap V) (x : ℕ × V) → BTreeMap.first_key_value m ≡ some x → All P m → P x
  unfolding BTreeMap.first_key_value
  first-All [] x e a = cc
  first-All (y ∷ m) x e a = let same : y ≡ x = ground arith in subst P same a.0

  last-All : (m : BTreeMap V) (x : ℕ × V) → BTreeMap.last_key_value m ≡ some x → All P m → P x
  unfolding BTreeMap.last_key_value
  last-All [] x e a = cc
  last-All (y ∷ []) x e a = let same : y ≡ x = ground arith in subst P same a.0
  last-All (y ∷ z ∷ m) x e a = last-All (z ∷ m) x e a.1

-- The side that an order is matched against.
abbrev pub faced : Side → Side
faced bid = ask
faced ask = bid

pub best_level-StandsAt :
    (s : Side) (book : OrderBook) (l : ℕ × List Order)
    → best_level s book ≡ some l
    → IsPlaced book
    → StandsAt (faced s) l
unfolding best_level
best_level-StandsAt bid book l e v = first-All (StandsAt ask) book.asks l e v.asks
best_level-StandsAt ask book l e v = last-All (StandsAt bid) book.bids l e v.bids

pub levels_of-StandsAt :
    (s : Side) (p : ℕ) (queue : List Order) (book : OrderBook)
    → BTreeMap.get p (levels_of s book) ≡ some queue
    → IsPlaced book
    → StandsAt s (p, queue)
unfolding levels_of
levels_of-StandsAt bid p queue book e v = get-All (StandsAt bid) p queue book.bids e v.bids
levels_of-StandsAt ask p queue book e v = get-All (StandsAt ask) p queue book.asks e v.asks

pub put_level-IsPlaced :
    (s : Side) (p : ℕ) (queue : List Order) (book : OrderBook)
    → All (At (faced s) p) queue
    → IsPlaced book
    → IsPlaced (put_level s p queue book)
unfolding put_level
put_level-IsPlaced bid p [] book h v = record {
  bids = v.bids;
  asks = pop_first-All (StandsAt ask) book.asks v.asks;
}
put_level-IsPlaced bid p (o ∷ q) book h v = record {
  bids = v.bids;
  asks = insert-All (StandsAt ask) p (o ∷ q) book.asks h v.asks;
}
put_level-IsPlaced ask p [] book h v = record {
  bids = pop_last-All (StandsAt bid) book.bids v.bids;
  asks = v.asks;
}
put_level-IsPlaced ask p (o ∷ q) book h v = record {
  bids = insert-All (StandsAt bid) p (o ∷ q) book.bids h v.bids;
  asks = v.asks;
}

pub put_queue-IsPlaced :
    (s : Side) (p : ℕ) (queue : List Order) (book : OrderBook)
    → All (At s p) queue
    → IsPlaced book
    → IsPlaced (put_queue s p queue book)
unfolding put_queue
put_queue-IsPlaced bid p [] book h v = record {
  bids = remove-All (StandsAt bid) p book.bids v.bids;
  asks = v.asks;
}
put_queue-IsPlaced bid p (o ∷ q) book h v = record {
  bids = insert-All (StandsAt bid) p (o ∷ q) book.bids h v.bids;
  asks = v.asks;
}
put_queue-IsPlaced ask p [] book h v = record {
  bids = v.bids;
  asks = remove-All (StandsAt ask) p book.asks v.asks;
}
put_queue-IsPlaced ask p (o ∷ q) book h v = record {
  bids = v.bids;
  asks = insert-All (StandsAt ask) p (o ∷ q) book.asks h v.asks;
}

-- The queue to which an order is added has its side and price.
or_else-At :
    (s : Side) (p : ℕ) (m : BTreeMap (List Order))
    → All (StandsAt s) m
    → All (At s p) (HashMap.or_else [] (BTreeMap.get p m))
or_else-At s p m v = elim (Option-cases (BTreeMap.get p m)) [
  | inl absent ↦ rw absent tt
  | inr (queue, found) ↦ rw found (StandsAt-All s p queue (get-All (StandsAt s) p queue m found v))
]

snoc-StandsAt :
    (s : Side) (p : ℕ) (queue : List Order) (o : Order)
    → All (At s p) queue
    → At s p o
    → StandsAt s (p, queue ++ o ∷ [])
snoc-StandsAt s p [] o h here = (here, tt)
snoc-StandsAt s p (x ∷ queue) o h here = (h.0, All-append (At s p) queue (o ∷ []) h.1 (here, tt))

push_back-All :
    (s : Side) (o : Order) (m : BTreeMap (List Order))
    → o.side ≡ s
    → All (StandsAt s) m
    → All (StandsAt s) (push_back o m)
unfolding push_back
push_back-All s o m e v =
    let queue = HashMap.or_else [] (BTreeMap.get o.price m) in
    insert-All (StandsAt s) o.price (queue ++ o ∷ []) m
      (snoc-StandsAt s o.price queue o (or_else-At s o.price m v) (e, refl)) v

rest_in-IsPlaced :
    (o : Order) (s : Side) (book : OrderBook)
    → o.side ≡ s
    → IsPlaced book
    → IsPlaced (rest_in o book)
unfolding rest_in
rest_in-IsPlaced o bid book e v =
    let same : rest_in o book ≡ record book { bids = push_back o book.bids } = ground arith in
    subst IsPlaced (sym same)
      (record { bids = push_back-All bid o book.bids e v.bids; asks = v.asks })
rest_in-IsPlaced o ask book e v =
    let same : rest_in o book ≡ record book { asks = push_back o book.asks } = ground arith in
    subst IsPlaced (sym same)
      (record { bids = v.bids; asks = push_back-All ask o book.asks e v.asks })

pub rest-IsPlaced : (o : Order) (book : OrderBook) → IsPlaced book → IsPlaced (rest o book)
unfolding rest
rest-IsPlaced o book v =
    let w = rest_in-IsPlaced o o.side book refl v in
    elim (Bool-cases (nat_eqb o.remaining_size 0)) [
      | inl filled ↦ rw filled v
      | inr left ↦ rw left (elim (Bool-cases (order_type_eqb o.order_type limit)) [
        | inl rests ↦ rw rests (record { bids = w.bids; asks = w.asks })
        | inr gone ↦ rw gone v
      ])
    ]
