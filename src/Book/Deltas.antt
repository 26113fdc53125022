-- ===== src/Book/Deltas.antt =====
-- The deltas of an operation say of every level that it changed what its quantity is after it.
use cex_matching_engine.Prelude.{
  ℕ, ◌≡◌, refl, sym, ap, ◌∙◌, List, [], ◌∷◌, All, Bool, map, nat_eqb, nat_eq, pair_eq, pair_eqb,
  pair_eqb_iff, Bool-cases, inl, inr, true, false, if◌then◌else◌, ◌&&◌,
}
use cex_matching_engine.Prelude.HashMap
use cex_matching_engine.Market.{Pair}
use cex_matching_engine.Book.Types.{
  Side, bid, ask, side_eqb, side_eq, Order, OrderBook, LevelDelta, LevelKey,
}
use cex_matching_engine.Book.Levels.{levels_of, qty_at, take_dirty_levels}
use cex_matching_engine.Book.Matching.{
  Run, match_queue, match_front, maker_after, taker_after, drop_index,
}
use cex_matching_engine.Book.Placing.{At}

-- Whether a level is marked as changed.
abbrev pub marked : Side → ℕ → OrderBook → Bool
marked s p book = HashMap.contains (s, p) book.dirty_levels

-- Every level that is not marked has the quantity that it had in an earlier book.
abbrev pub Marks : OrderBook → OrderBook → Type 0
Marks old book = (s : Side) (p : ℕ) → marked s p book ≡ false → qty_at s p book ≡ qty_at s p old

-- The quantity of a level by a list of deltas: the last one for it, or what it was before.
abbrev pub told : Side → ℕ → ℕ → List LevelDelta → ℕ
told s p old [] = old
told s p old ((side, price, qty) ∷ deltas) =
    told s p (if side_eqb s side && nat_eqb p price then qty else old) deltas

-- Only the two maps decide the quantities.
pub qty_at-same :
    (s : Side) (p : ℕ) (book book' : OrderBook)
    → book.bids ≡ book'.bids
    → book.asks ≡ book'.asks
    → qty_at s p book ≡ qty_at s p book'
unfolding qty_at levels_of
qty_at-same bid p book book' b a = rw b refl
qty_at-same ask p book book' b a = rw a refl

or_else_told :
    (here later : Bool) (q now old : ℕ)
    → (here ≡ true → q ≡ now)
    → (if later then now else if here then q else old)
      ≡ (if if here then true else later then now else old)
or_else_told true true q now old h = refl
or_else_told true false q now old h = h refl
or_else_told false true q now old h = refl
or_else_told false false q now old h = refl

-- Draining the marks tells of every marked level.
told-map :
    (s : Side) (p old : ℕ) (book : OrderBook) (keys : List LevelKey)
    → told s p old (map (λ (k : LevelKey). (k.0, k.1, qty_at k.0 k.1 book)) keys)
      ≡ (if HashMap.contains (s, p) keys then qty_at s p book else old)
unfolding HashMap.contains
told-map s p old book [] = refl
told-map s p old book ((side, price) ∷ keys) =
    let here = pair_eqb (s, p) (side, price) in
    told-map s p (if here then qty_at side price book else old) book keys
    ∙ or_else_told here (HashMap.contains (s, p) keys) (qty_at side price book) (qty_at s p book)
        old
        (λ e.
          ap (λ (k : LevelKey). qty_at k.0 k.1 book)
            (sym ((pair_eqb_iff (s, p) (side, price)).0 e)))

unmarked_told : (b : Bool) (now old : ℕ) → (b ≡ false → now ≡ old) → (if b then now else old) ≡ now
unmarked_told true now old h = refl
unmarked_told false now old h = sym (h refl)

pub take_dirty_levels-told :
    (old book : OrderBook) (s : Side) (p : ℕ)
    → Marks old book
    → told s p (qty_at s p old) (take_dirty_levels book).0 ≡ qty_at s p (take_dirty_levels book).1
unfolding take_dirty_levels
take_dirty_levels-told old book s p h =
    told-map s p (qty_at s p old) book book.dirty_levels
    ∙ unmarked_told (marked s p book) (qty_at s p book) (qty_at s p old) (h s p)
    ∙ qty_at-same s p book (take_dirty_levels book).1 refl refl

-- What the inner loop does to a level: the queue that it leaves stands where the old one stood, the
-- two maps are not written yet, marks are only added, and the level is marked where the taker is
-- not filled before the first round.
pub record Consumes (s : Side) (p : ℕ) (queue : List Order) (run : Run) (r : List Order × Run)
    : Type 0 where
  pub bids : r.1.book.bids ≡ run.book.bids
  pub asks : r.1.book.asks ≡ run.book.asks
  pub side : r.1.order.side ≡ run.order.side
  pub queue_at : All (At s p) r.0
  pub adds : (t : Side) (q : ℕ) → marked t q r.1.book ≡ false → marked t q run.book ≡ false

pub marks_maker :
    (pair : Pair) (maker : Order) (run : Run) (t : Side) (q : ℕ)
    → marked t q (match_front pair maker run).book
      ≡ (if pair_eqb (t, q) (maker.side, maker.price) then true else marked t q run.book)
unfolding match_front
marks_maker pair maker run t q =
    HashMap.contains-with_elem (t, q) (maker.side, maker.price) run.book.dirty_levels

if_marked : (b c : Bool) → (if b then true else c) ≡ false → c ≡ false
if_marked true c h = cc
if_marked false c h = h

pub match_queue-Consumes :
    (pair : Pair) (s : Side) (p : ℕ) (queue : List Order) (run : Run)
    → All (At s p) queue
    → Consumes s p queue run (match_queue pair queue run)
unfolding match_queue match_front drop_index taker_after maker_after
match_queue-Consumes pair s p [] run h = record {
  bids = refl;
  asks = refl;
  side = refl;
  queue_at = tt;
  adds = λ t q e. e;
}
match_queue-Consumes pair s p (maker ∷ queue) run h =
    let run' = match_front pair maker run in
    let adds = λ (t : Side) (q : ℕ) (e : marked t q run'.book ≡ false).
      if_marked (pair_eqb (t, q) (maker.side, maker.price)) (marked t q run.book)
        (sym (marks_maker pair maker run t q) ∙ e) in
    elim (Bool-cases (nat_eqb run.order.remaining_size 0)) [
      | inl filled ↦
          rw filled
            (record { bids = refl; asks = refl; side = refl; queue_at = h; adds = λ t q e. e })
      | inr open_taker ↦
          rw open_taker
            (elim (Bool-cases (nat_eqb (maker_after run.order maker).remaining_size 0)) [
              | inl popped ↦
                  let later = match_queue-Consumes pair s p queue (drop_index maker.id run') h.1 in
                  rw popped (record {
                    bids = later.bids;
                    asks = later.asks;
                    side = later.side;
                    queue_at = later.queue_at;
                    adds = λ t q e. adds t q (later.adds t q e);
                  })
              | inr stays ↦
                  rw stays
                    (record { bids = refl; asks = refl; side = refl; queue_at = h; adds = adds })
            ])
    ]
