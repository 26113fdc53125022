-- ===== src/Feed/Client.antt =====
-- What the clients of the feeds can rely on.
use cex_matching_engine.Prelude.{
  ℕ, ◌≡◌, refl, sym, ap, ◌∙◌, arith, List, [], ◌∷◌, map, if◌then◌else◌, nat_eqb, nat_eqb_iff, All,
  some, Bool-cases, true, false, Option-cases, inl, inr, ◌&&◌,
}
use cex_matching_engine.Market.{AccountId, Pair, pair_eqb, pair_eqb_iff}
use cex_matching_engine.Book.Types.{Side, side_eqb}
use cex_matching_engine.Command.{Event, EventBatch, trade, book_delta}
use cex_matching_engine.Feed.{
  MarketMessage, delta, tick, market_messages, public_feed, owner_of, private_feed,
}
use cex_matching_engine.Projection.{BookState, apply_batch}
use cex_matching_engine.Projection.Levels.{shown, reported, apply_batch_again}

-- The quantity at a level as a client keeps it: a delta sets it.
abbrev pub followed : Side → ℕ → ℕ → List MarketMessage → ℕ
followed side price old [] = old
followed side price old (delta seq s p qty ∷ messages) =
    followed side price (if side_eqb side s && nat_eqb price p then qty else old) messages
followed side price old (tick _ _ _ _ ∷ messages) = followed side price old messages

followed-market_messages :
    (pair : Pair) (side : Side) (price seq old : ℕ) (events : List Event)
    → followed side price old (market_messages pair seq events)
      ≡ reported pair side price old events
unfolding market_messages
followed-market_messages pair side price seq old [] = refl
followed-market_messages pair side price seq old (book_delta d ∷ events) =
    elim (Bool-cases (pair_eqb d.pair pair)) [
      | inl here ↦
          let same : pair_eqb pair d.pair ≡ true =
            ground (arith, pair_eqb_iff d.pair pair, pair_eqb_iff pair d.pair) in
          rw (here, same)
            (followed-market_messages pair side price seq
              (if side_eqb side d.side && nat_eqb price d.price then d.qty else old) events)
      | inr other ↦
          let differs : pair_eqb pair d.pair ≡ false =
            ground (arith, pair_eqb_iff d.pair pair, pair_eqb_iff pair d.pair) in
          rw (other, differs) (followed-market_messages pair side price seq old events)
    ]
followed-market_messages pair side price seq old (trade t ∷ events) =
    elim (Bool-cases (pair_eqb t.pair pair)) [
      | inl here ↦ rw here (followed-market_messages pair side price seq old events)
      | inr other ↦ rw other (followed-market_messages pair side price seq old events)
    ]
followed-market_messages pair side price seq old (_ ∷ events) =
    followed-market_messages pair side price seq old events

-- A client that had the level of the server before a batch, and sets it by the messages of its feed,
-- has the level of the server after the batch.
pub public_feed-follows :
    (pair : Pair) (side : Side) (price : ℕ) (batch : EventBatch) (s : BookState)
    → followed side price (shown pair side price s.books) (public_feed pair batch)
      ≡ shown pair side price (apply_batch batch s).books
unfolding public_feed
public_feed-follows pair side price batch s =
    followed-market_messages pair side price batch.seq (shown pair side price s.books) batch.events
    ∙ sym (apply_batch_again batch s pair side price).1

-- An event with other accounts in place of those of a trade.
abbrev pub with_traders : AccountId → AccountId → Event → Event
with_traders maker taker (trade t) =
    trade (record t { maker_account = maker; taker_account = taker })
with_traders maker taker event = event

-- The messages of the public feed are the same whichever accounts stand in the trades.
market_messages-with_traders :
    (pair : Pair) (seq : ℕ) (maker taker : AccountId) (events : List Event)
    → market_messages pair seq (map (with_traders maker taker) events)
      ≡ market_messages pair seq events
unfolding market_messages
market_messages-with_traders pair seq maker taker [] = refl
market_messages-with_traders pair seq maker taker (book_delta d ∷ events) =
    ground (arith, market_messages-with_traders pair seq maker taker events)
market_messages-with_traders pair seq maker taker (trade t ∷ events) =
    ground (arith, market_messages-with_traders pair seq maker taker events)
market_messages-with_traders pair seq maker taker (_ ∷ events) =
    market_messages-with_traders pair seq maker taker events

-- The private feed of an account holds events of that account only.
private_feed-owned :
    (a : AccountId) (events : List Event) → All (λ e. owner_of e ≡ some a) (private_feed a events)
unfolding private_feed
private_feed-owned a [] = tt
private_feed-owned a (event ∷ events) = elim (Option-cases (owner_of event)) [
  | inl unowned ↦ rw (unowned, private_feed) (private_feed-owned a events)
  | inr (owner, owned) ↦ elim (Bool-cases (nat_eqb owner a)) [
    | inl mine ↦
        rw (owned, mine, private_feed)
          (owned ∙ ap some ((nat_eqb_iff owner a).0 mine), private_feed-owned a events)
    | inr other ↦ rw (owned, other, private_feed) (private_feed-owned a events)
  ]
]
