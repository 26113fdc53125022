-- ===== src/Projection/Levels.antt =====
-- What a reader of the projection sees at a level, after a batch.
use cex_matching_engine.Prelude.{
  ℕ, ◌≡◌, refl, List, [], ◌∷◌, arith, nat_eqb, if◌then◌else◌, ◌&&◌, Bool-cases, inl, inr, ap, sym,
  ◌∙◌, ◌⊎◌,
}
use cex_matching_engine.Prelude.HashMap
use cex_matching_engine.Prelude.BTreeMap
use cex_matching_engine.Market.{Pair, pair_eqb, pair_eqb_iff, market_pair_eq}
use cex_matching_engine.Book.Types.{Side, bid, ask, side_eqb}
use cex_matching_engine.Command.{Event, EventBatch, BookDelta, book_delta, trade}
use cex_matching_engine.Projection.{
  Book, BookState, empty_book, set_level, apply_delta, apply_event, apply_events, apply_batch,
}

-- The quantity at a price, 0 where there is no level.
abbrev pub qty_in : ℕ → BTreeMap.BTreeMap ℕ → ℕ
qty_in price levels = HashMap.or_else 0 (BTreeMap.get price levels)

abbrev pub side_of : Side → Book → BTreeMap.BTreeMap ℕ
side_of bid book = book.bids
side_of ask book = book.asks

abbrev pub shown : Pair → Side → ℕ → HashMap.HashMap Pair Book → ℕ
shown pair side price books = qty_in price (side_of side (HashMap.get_or empty_book pair books))

-- What a list of events says of a level: its last delta there, or what was shown before.
abbrev pub reported : Pair → Side → ℕ → ℕ → List Event → ℕ
reported pair side price old [] = old
reported pair side price old (book_delta d ∷ events) =
    reported pair side price
      (if pair_eqb pair d.pair && (side_eqb side d.side && nat_eqb price d.price)
        then d.qty
        else old)
      events
reported pair side price old (_ ∷ events) = reported pair side price old events

qty_in-set_level :
    (price p qty : ℕ) (levels : BTreeMap.BTreeMap ℕ)
    → qty_in price (set_level p qty levels) ≡ (if nat_eqb price p then qty else qty_in price levels)
unfolding set_level
qty_in-set_level price p qty levels =
    ground (arith, BTreeMap.get-insert price p qty levels, BTreeMap.get-remove price p levels)

side_of-apply_delta :
    (side : Side) (price : ℕ) (d : BookDelta) (book : Book)
    → qty_in price (side_of side (apply_delta d book)) ≡ (
        if side_eqb side d.side && nat_eqb price d.price
        then d.qty
        else qty_in price (side_of side book))
unfolding apply_delta
side_of-apply_delta bid price d book =
    ground (arith, qty_in-set_level price d.price d.qty book.bids)
side_of-apply_delta ask price d book =
    ground (arith, qty_in-set_level price d.price d.qty book.asks)

shown-apply_delta :
    (pair : Pair) (side : Side) (price : ℕ) (d : BookDelta) (books : HashMap.HashMap Pair Book)
    → shown pair side price (apply_event (book_delta d) books) ≡ (
        if pair_eqb pair d.pair && (side_eqb side d.side && nat_eqb price d.price)
        then d.qty
        else shown pair side price books)
unfolding apply_event HashMap.get_or
shown-apply_delta pair side price d books =
    let old = HashMap.or_else empty_book (HashMap.get d.pair books) in
    rw (HashMap.get-insert pair d.pair (apply_delta d old) books)
      (elim (Bool-cases (pair_eqb pair d.pair)) [
        | inl same ↦
            rw (same, (pair_eqb_iff pair d.pair).0 same) (side_of-apply_delta side price d old)
        | inr other ↦ rw other
      ])

-- After a list of events a level shows the last quantity that they report for it, or what it
-- showed before where they report none.
pub shown-apply_events :
    (pair : Pair) (side : Side) (price : ℕ) (events : List Event)
    (books : HashMap.HashMap Pair Book)
    → shown pair side price (apply_events events books)
      ≡ reported pair side price (shown pair side price books) events
unfolding apply_events apply_event
shown-apply_events pair side price [] books = refl
shown-apply_events pair side price (book_delta d ∷ events) books =
    shown-apply_events pair side price events (apply_event (book_delta d) books)
    ∙ ap (λ q. reported pair side price q events) (shown-apply_delta pair side price d books)
shown-apply_events pair side price (trade t ∷ events) books =
    shown-apply_events pair side price events books
shown-apply_events pair side price (_ ∷ events) books =
    shown-apply_events pair side price events books

-- Reports depend on the old quantity only where there is no delta for the level.
reported_cases :
    (pair : Pair) (side : Side) (price : ℕ) (events : List Event)
    → ((old : ℕ) → reported pair side price old events ≡ old)
      ⊎ ((q : ℕ) × ((old : ℕ) → reported pair side price old events ≡ q))
reported_cases pair side price [] = inl (λ old. refl)
reported_cases pair side price (book_delta d ∷ events) =
    elim (reported_cases pair side price events) [
      | inr later ↦ inr (later.0, λ old. later.1 _)
      | inl none_later ↦
          elim (Bool-cases
            (pair_eqb pair d.pair && (side_eqb side d.side && nat_eqb price d.price))) [
              | inl here ↦ inr (d.qty, λ old. rw here (none_later d.qty))
              | inr other ↦ inl (λ old. rw other (none_later old))
            ]
    ]
reported_cases pair side price (trade t ∷ events) = reported_cases pair side price events
reported_cases pair side price (_ ∷ events) = reported_cases pair side price events

-- After a batch a level shows the last quantity that the batch reports for it, or what it showed
-- before where the batch reports none, and a batch that is delivered again changes no level and no
-- sequence number.
pub apply_batch_again :
    (batch : EventBatch) (s : BookState) (pair : Pair) (side : Side) (price : ℕ)
    → let once = apply_batch batch s in
      let twice = apply_batch batch once in
      (shown pair side price twice.books ≡ shown pair side price once.books)
      × (shown pair side price once.books
          ≡ reported pair side price (shown pair side price s.books) batch.events)
      × (twice.last_seq ≡ once.last_seq)
unfolding apply_batch
apply_batch_again batch s pair side price =
    let e₁ = shown-apply_events pair side price batch.events s.books in
    let e₂ = shown-apply_events pair side price batch.events (apply_events batch.events s.books) in
    elim (reported_cases pair side price batch.events) [
      | inl unreported ↦ (e₂ ∙ unreported _, e₁, refl)
      | inr set ↦ (e₂ ∙ set.1 _ ∙ sym (set.1 _) ∙ sym e₁, e₁, refl)
    ]
