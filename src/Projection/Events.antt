-- ===== src/Projection/Events.antt =====
-- What the events of a command say of the levels of every market.
use cex_matching_engine.Prelude.{
  ℕ, ◌≡◌, refl, sym, ap, ◌∙◌, some, [], ◌∷◌, ◌++◌, List, map, Bool-cases, if◌then◌else◌, ◌&&◌, inl,
  inr, nat_eq, nat_eqb, true, false, All,
}
use cex_matching_engine.Prelude.HashMap
use cex_matching_engine.Market.{AccountId, Pair, market_pair_eq, pair_eqb, pair_eqb_iff}
use cex_matching_engine.Book.Types.{
  Side, side_eqb, OrderBook, OrderRequest, Order, MatchResponse, LevelDelta, OrderUpdate, Trade,
  new_book,
}
use cex_matching_engine.Book.Levels.{qty_at}
use cex_matching_engine.Book.Deltas.{told}
use cex_matching_engine.Book.Reports.{Reports}
use cex_matching_engine.Command.{
  CancelRequest, Event, trade, book_delta, balance_changed, order_accepted, order_cancelled,
  order_updated,
}
use cex_matching_engine.Engine.Apply.{delta_event, update_event, place_events, cancel_events}
use cex_matching_engine.Engine.Books.{Books}
use cex_matching_engine.Projection.Levels.{reported}

reported-append :
    (pair : Pair) (s : Side) (p : ℕ) (xs ys : List Event) (old : ℕ)
    → reported pair s p old (xs ++ ys) ≡ reported pair s p (reported pair s p old xs) ys
reported-append pair s p [] ys old = refl
reported-append pair s p (book_delta d ∷ xs) ys old = reported-append pair s p xs ys _
reported-append pair s p (trade t ∷ xs) ys old = reported-append pair s p xs ys old
reported-append pair s p (balance_changed b ∷ xs) ys old = reported-append pair s p xs ys old
reported-append pair s p (order_accepted o ∷ xs) ys old = reported-append pair s p xs ys old
reported-append pair s p (order_cancelled o ∷ xs) ys old = reported-append pair s p xs ys old
reported-append pair s p (order_updated o ∷ xs) ys old = reported-append pair s p xs ys old

-- An event that says nothing of a level.
abbrev pub Silent : Event → Type 0
Silent (book_delta d) = ⊥
Silent _ = Unit

reported-Silent :
    (pair : Pair) (s : Side) (p old : ℕ) (events : List Event)
    → All Silent events
    → reported pair s p old events ≡ old
reported-Silent pair s p old [] h = refl
reported-Silent pair s p old (book_delta d ∷ xs) h = elim h.0 [ ]
reported-Silent pair s p old (trade t ∷ xs) h = reported-Silent pair s p old xs h.1
reported-Silent pair s p old (balance_changed b ∷ xs) h = reported-Silent pair s p old xs h.1
reported-Silent pair s p old (order_accepted o ∷ xs) h = reported-Silent pair s p old xs h.1
reported-Silent pair s p old (order_cancelled o ∷ xs) h = reported-Silent pair s p old xs h.1
reported-Silent pair s p old (order_updated o ∷ xs) h = reported-Silent pair s p old xs h.1

reported-deltas :
    (pair : Pair) (s : Side) (p old : ℕ) (of_pair : Pair) (deltas : List LevelDelta)
    → reported pair s p old (map (delta_event of_pair) deltas)
      ≡ (if pair_eqb pair of_pair then told s p old deltas else old)
reported-deltas pair s p old of_pair deltas = elim (Bool-cases (pair_eqb pair of_pair)) [
  | inl same ↦ rw same (inside deltas old same)
  | inr other ↦ rw other (outside deltas old other)
]
  where
    inside :
        (deltas : List LevelDelta) (old : ℕ)
        → pair_eqb pair of_pair ≡ true
        → reported pair s p old (map (delta_event of_pair) deltas) ≡ told s p old deltas
    inside [] old e = refl
    inside ((side, price, qty) ∷ deltas) old e =
        ap
          (λ b.
            reported pair s p (if b && (side_eqb s side && nat_eqb p price) then qty else old)
              (map (delta_event of_pair) deltas))
          e
        ∙ inside deltas (if side_eqb s side && nat_eqb p price then qty else old) e

    outside :
        (deltas : List LevelDelta) (old : ℕ)
        → pair_eqb pair of_pair ≡ false
        → reported pair s p old (map (delta_event of_pair) deltas) ≡ old
    outside [] old e = refl
    outside ((side, price, qty) ∷ deltas) old e =
        ap
          (λ b.
            reported pair s p (if b && (side_eqb s side && nat_eqb p price) then qty else old)
              (map (delta_event of_pair) deltas))
          e
        ∙ outside deltas old e

-- The quantity at a level of a market of the engine.
abbrev pub quantity : Pair → Side → ℕ → Books → ℕ
quantity pair s p books = qty_at s p (HashMap.get_or new_book pair books)

-- Events say of every level what its quantity is after them: a level that they leave out is as it
-- was.
abbrev pub Says : Books → List Event → Books → Type 0
Says old events books =
    (pair : Pair) (s : Side) (p : ℕ)
    → quantity pair s p books ≡ reported pair s p (quantity pair s p old) events

pub insert-Says :
    (books : Books) (of_pair : Pair) (deltas : List LevelDelta) (book : OrderBook)
    → Reports (HashMap.get_or new_book of_pair books) deltas book
    → Says books (map (delta_event of_pair) deltas) (HashMap.insert of_pair book books)
unfolding HashMap.get_or
insert-Says books of_pair deltas book h pair s p =
    let get = HashMap.get-insert pair of_pair book books in
    let events = reported-deltas pair s p (quantity pair s p books) of_pair deltas in
    elim (Bool-cases (pair_eqb pair of_pair)) [
      | inl same ↦
          ap (λ o. qty_at s p (HashMap.or_else new_book o))
            (get ∙ ap (λ b. if b then some book else HashMap.get pair books) same)
          ∙ h s p
          ∙ ap (λ q. told s p (quantity q s p books) deltas)
              (sym ((pair_eqb_iff pair of_pair).0 same))
          ∙ sym (
              events
              ∙ ap
                  (λ b.
                    if b
                    then told s p (quantity pair s p books) deltas
                    else quantity pair s p books)
                  same)
      | inr other ↦
          ap (λ o. qty_at s p (HashMap.or_else new_book o))
            (get ∙ ap (λ b. if b then some book else HashMap.get pair books) other)
          ∙ sym (
              events
              ∙ ap
                  (λ b.
                    if b
                    then told s p (quantity pair s p books) deltas
                    else quantity pair s p books)
                  other)
    ]

-- Silent events around others change nothing of what they say.
prepend-Says :
    (silent events : List Event) (old books : Books)
    → All Silent silent
    → Says old events books
    → Says old (silent ++ events) books
prepend-Says silent events old books quiet h pair s p =
    let q = quantity pair s p old in
    h pair s p
    ∙ ap (λ n. reported pair s p n events) (sym (reported-Silent pair s p q silent quiet))
    ∙ sym (reported-append pair s p silent events q)

pub append-Says :
    (events silent : List Event) (old books : Books)
    → All Silent silent
    → Says old events books
    → Says old (events ++ silent) books
append-Says events silent old books quiet h pair s p =
    let q = quantity pair s p old in
    h pair s p
    ∙ sym (reported-Silent pair s p (reported pair s p q events) silent quiet)
    ∙ sym (reported-append pair s p events silent q)

trades-Silent : (ts : List Trade) → All Silent (map trade ts)
trades-Silent [] = tt
trades-Silent (t ∷ ts) = (tt, trades-Silent ts)

updates-Silent : (pair : Pair) (us : List OrderUpdate) → All Silent (map (update_event pair) us)
updates-Silent pair [] = tt
updates-Silent pair (u ∷ us) = (tt, updates-Silent pair us)

pub place_events-Says :
    (a : AccountId) (req : OrderRequest) (res : MatchResponse) (old books : Books)
    → Says old (map (delta_event req.pair) res.book_deltas) books
    → Says old (place_events a req res) books
unfolding place_events
place_events-Says a req res old books h =
    let deltas = map (delta_event req.pair) res.book_deltas in
    let updates = map (update_event req.pair) res.updates in
    prepend-Says (map trade res.trades) (updates ++ deltas) old books (trades-Silent res.trades)
      (prepend-Says updates deltas old books (updates-Silent req.pair res.updates) h)

pub cancel_events-Says :
    (req : CancelRequest) (pair : Pair) (order : Order) (deltas : List LevelDelta)
    (old books : Books)
    → Says old (map (delta_event pair) deltas) books
    → Says old (cancel_events req (pair, order, deltas)) books
unfolding cancel_events
cancel_events-Says req pair order deltas old books h = h

pub same-Says : (old books : Books) → books ≡ old → Says old [] books
same-Says old books e pair s p = ap (quantity pair s p) e
