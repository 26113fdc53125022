-- ===== src/Book/Marking.antt =====
-- The outer loop of `add_order` marks every level that it changes, and keeps orders in their places.
use cex_matching_engine.Prelude.{
  ℕ, zero, suc, ◌≡◌, refl, sym, ap, ◌∙◌, arith, none, some, List, [], ◌∷◌, All, subst, nat_eqb,
  nat_eq, pair_eq, pair_eqb, pair_eqb_iff, Bool-cases, Option-cases, inl, inr, true, false,
  if◌then◌else◌,
}
use cex_matching_engine.Prelude.BTreeMap
use cex_matching_engine.Prelude.BTreeMap.{BTreeMap}
use cex_matching_engine.Market.{Pair}
use cex_matching_engine.Book.Types.{Side, bid, ask, side_eq, Order, OrderBook, LevelKey}
use cex_matching_engine.Book.Levels.{levels_of, best_level, qty_at}
use cex_matching_engine.Book.Matching.{
  Run, sweep, next_level, match_level, match_queue, match_front, maker_after, drop_index, put_level,
  out_of_reach,
}
use cex_matching_engine.Book.Placing.{
  StandsAt, IsPlaced, StandsAt-All, faced, best_level-StandsAt, put_level-IsPlaced,
}
use cex_matching_engine.Book.Deltas.{marked, Marks, qty_at-same, match_queue-Consumes, marks_maker}

module _ {ℓ} {V : Type ℓ} where
  get-pop_first :
      (j p : ℕ) (v : V) (m : BTreeMap V)
      → BTreeMap.first_key_value m ≡ some (p, v)
      → nat_eqb j p ≡ false
      → BTreeMap.get j (BTreeMap.pop_first m) ≡ BTreeMap.get j m
  unfolding BTreeMap.get BTreeMap.pop_first BTreeMap.first_key_value
  get-pop_first j p v [] e other = refl
  get-pop_first j p v (x ∷ m) e other =
      let same : x ≡ (p, v) = ground arith in
      subst (λ (y : ℕ × V). BTreeMap.get j m ≡ BTreeMap.get j (y ∷ m)) (sym same) (ground arith)

  get-pop_last :
      (j p : ℕ) (v : V) (m : BTreeMap V)
      → BTreeMap.last_key_value m ≡ some (p, v)
      → nat_eqb j p ≡ false
      → BTreeMap.get j (BTreeMap.pop_last m) ≡ BTreeMap.get j m
  unfolding BTreeMap.get BTreeMap.pop_last BTreeMap.last_key_value
  get-pop_last j p v [] e other = refl
  get-pop_last j p v (x ∷ []) e other =
      let same : x ≡ (p, v) = ground arith in
      subst (λ (y : ℕ × V). none ≡ BTreeMap.get j (y ∷ [])) (sym same) (ground arith)
  get-pop_last j p v (x ∷ y ∷ m) e other = ground (arith, get-pop_last j p v (y ∷ m) e other)

pub qty_at-get :
    (s : Side) (p : ℕ) (book book' : OrderBook)
    → BTreeMap.get p (levels_of s book) ≡ BTreeMap.get p (levels_of s book')
    → qty_at s p book ≡ qty_at s p book'
unfolding qty_at
qty_at-get s p book book' e = rw (e, qty_at) refl

-- Writing a level leaves the quantities of the others.
put_level-qty :
    (s : Side) (p : ℕ) (queue queue' : List Order) (book : OrderBook) (t : Side) (q : ℕ)
    → best_level s book ≡ some (p, queue)
    → pair_eqb (t, q) (faced s, p) ≡ false
    → qty_at t q (put_level s p queue' book) ≡ qty_at t q book
unfolding put_level best_level levels_of
put_level-qty bid p queue [] book bid q e other =
    qty_at-get bid q (put_level bid p [] book) book refl
put_level-qty bid p queue (o ∷ r) book bid q e other =
    qty_at-get bid q (put_level bid p (o ∷ r) book) book refl
put_level-qty bid p queue [] book ask q e other =
    qty_at-get ask q (record book { asks = BTreeMap.pop_first book.asks }) book
      (get-pop_first q p queue book.asks e other)
put_level-qty bid p queue (o ∷ r) book ask q e other =
    qty_at-get ask q (record book { asks = BTreeMap.insert p (o ∷ r) book.asks }) book
      (BTreeMap.get-insert q p (o ∷ r) book.asks ∙ rw other refl)
put_level-qty ask p queue [] book ask q e other =
    qty_at-get ask q (put_level ask p [] book) book refl
put_level-qty ask p queue (o ∷ r) book ask q e other =
    qty_at-get ask q (put_level ask p (o ∷ r) book) book refl
put_level-qty ask p queue [] book bid q e other =
    qty_at-get bid q (record book { bids = BTreeMap.pop_last book.bids }) book
      (get-pop_last q p queue book.bids e other)
put_level-qty ask p queue (o ∷ r) book bid q e other =
    qty_at-get bid q (record book { bids = BTreeMap.insert p (o ∷ r) book.bids }) book
      (BTreeMap.get-insert q p (o ∷ r) book.bids ∙ rw other refl)

put_level-marked :
    (s : Side) (p : ℕ) (queue : List Order) (book : OrderBook) (t : Side) (q : ℕ)
    → marked t q (put_level s p queue book) ≡ marked t q book
unfolding put_level
put_level-marked bid p [] book t q = refl
put_level-marked bid p (o ∷ r) book t q = refl
put_level-marked ask p [] book t q = refl
put_level-marked ask p (o ∷ r) book t q = refl

best_level-same :
    (s : Side) (book book' : OrderBook)
    → book.bids ≡ book'.bids
    → book.asks ≡ book'.asks
    → best_level s book ≡ best_level s book'
unfolding best_level
best_level-same bid book book' b a = rw a refl
best_level-same ask book book' b a = rw b refl

-- A level that is not marked is another one than a marked level.
pub elsewhere :
    (t : Side) (q : ℕ) (s : Side) (p : ℕ) (book : OrderBook)
    → marked t q book ≡ false
    → marked s p book ≡ true
    → pair_eqb (t, q) (s, p) ≡ false
elsewhere t q s p book clean dirty = elim (Bool-cases (pair_eqb (t, q) (s, p))) [
  | inl same ↦
      let here = ap (λ (k : LevelKey). marked k.0 k.1 book) ((pair_eqb_iff (t, q) (s, p)).0 same) in
      cc
  | inr other ↦ other
]

clean_before :
    (id : ℕ) (run : Run) (s : Side) (p : ℕ)
    → marked s p (drop_index id run).book ≡ false
    → marked s p run.book ≡ false
unfolding drop_index
clean_before id run s p e = e

-- A round of the outer loop marks the level that it takes.
match_queue-marks :
    (pair : Pair) (s : Side) (p : ℕ) (queue : List Order) (run : Run)
    → StandsAt s (p, queue)
    → nat_eqb run.order.remaining_size 0 ≡ false
    → marked s p (match_queue pair queue run).1.book ≡ true
unfolding match_queue
match_queue-marks pair s p [] run h live = elim h [ ]
match_queue-marks pair s p (maker ∷ queue) run h live =
    let run' = match_front pair maker run in
    let there : marked s p run'.book ≡ true =
      marks_maker pair maker run s p
      ∙ ap (λ b. if b then true else marked s p run.book)
          ((pair_eqb_iff (s, p) (maker.side, maker.price)).1 (λ i. (sym h.0.0 i, sym h.0.1 i))) in
    rw live (elim (Bool-cases (nat_eqb (maker_after run.order maker).remaining_size 0)) [
      | inr stays ↦ rw stays there
      | inl popped ↦
          rw popped
            (elim (Bool-cases
              (marked s p (match_queue pair queue (drop_index maker.id run')).1.book)) [
                | inl marks ↦ marks
                | inr clean ↦
                    let later =
                      match_queue-Consumes pair s p queue (drop_index maker.id run') h.1 in
                    let lost = clean_before maker.id run' s p (later.adds s p clean) in cc
              ])
    ])

-- What holds of a run that started from a book.
pub record Follows (old : OrderBook) (run : Run) : Type 0 where
  pub marks : Marks old run.book
  pub placed : IsPlaced run.book

next_level-some :
    (run : Run) (l : ℕ × List Order)
    → next_level run ≡ some l
    → (nat_eqb run.order.remaining_size 0 ≡ false) × (best_level run.order.side run.book ≡ some l)
unfolding next_level
next_level-some run l e = elim (Bool-cases (nat_eqb run.order.remaining_size 0)) [
  | inl filled ↦ let no : next_level run ≡ none = ground arith in cc
  | inr live ↦ elim (Option-cases (best_level run.order.side run.book)) [
    | inl empty ↦ let no : next_level run ≡ none = ground arith in cc
    | inr (best, found) ↦ elim (Bool-cases (out_of_reach run.order best.0)) [
      | inl far ↦ let no : next_level run ≡ none = ground arith in cc
      | inr near ↦ (live, ground arith)
    ]
  ]
]

match_level-Follows :
    (old : OrderBook) (pair : Pair) (p : ℕ) (queue : List Order) (run : Run)
    → next_level run ≡ some (p, queue)
    → Follows old run
    → Follows old (match_level pair p queue run)
unfolding match_level
match_level-Follows old pair p queue run e f =
    let (live, best) = next_level-some run (p, queue) e in
    let s = faced run.order.side in
    let stands = best_level-StandsAt run.order.side run.book (p, queue) best f.placed in
    let c = match_queue-Consumes pair s p queue run (StandsAt-All s p queue stands) in
    let r = match_queue pair queue run in
    let w : IsPlaced r.1.book = record {
      bids = subst (All (StandsAt bid)) (sym c.bids) f.placed.bids;
      asks = subst (All (StandsAt ask)) (sym c.asks) f.placed.asks;
    } in
    record {
      placed = put_level-IsPlaced run.order.side p r.0 r.1.book c.queue_at w;
      marks = λ t q unmarked.
          let clean : marked t q r.1.book ≡ false =
            sym (put_level-marked run.order.side p r.0 r.1.book t q) ∙ unmarked in
          put_level-qty run.order.side p queue r.0 r.1.book t q
            (best_level-same run.order.side r.1.book run.book c.bids c.asks ∙ best)
            (elsewhere t q s p r.1.book clean (match_queue-marks pair s p queue run stands live))
          ∙ qty_at-same t q r.1.book run.book c.bids c.asks
          ∙ f.marks t q (c.adds t q clean);
    }

pub sweep-Follows :
    (old : OrderBook) (fuel : ℕ) (pair : Pair) (run : Run)
    → Follows old run
    → Follows old (sweep fuel pair run)
unfolding sweep
sweep-Follows old zero pair run f = f
sweep-Follows old (suc fuel) pair run f = elim (Option-cases (next_level run)) [
  | inl ends ↦ rw (ends, sweep) f
  | inr ((p, queue), goes) ↦
      rw (goes, sweep)
        (sweep-Follows old fuel pair (match_level pair p queue run)
          (match_level-Follows old pair p queue run goes f))
]
