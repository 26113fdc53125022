-- ===== src/Feed.antt =====
-- bin/api/ws.rs: what the two websocket feeds send of a batch. The sockets, the authentication and
-- the serialisation of a message are not modelled.
pub mod Client
use cex_matching_engine.Prelude.{
  ℕ, ◌≡◌, refl, arith, List, [], ◌∷◌, if◌then◌else◌, nat_eqb, nat_eqb_iff, All, Option, none, some,
  Bool-cases, inl, inr,
}
use cex_matching_engine.Market.{AccountId, Pair, pair_eqb}
use cex_matching_engine.Book.Types.{Side}
use cex_matching_engine.Command.{
  Event, EventBatch, trade, book_delta, order_accepted, order_updated,
}

pub data MarketMessage : Type 0 where
  delta : ℕ → Side → ℕ → ℕ → MarketMessage
  tick : ℕ → ℕ → ℕ → Side → MarketMessage

-- The loop over the events of a batch in `public_market_loop`.
unfoldable pub market_messages : Pair → ℕ → List Event → List MarketMessage
market_messages pair seq [] = []
market_messages pair seq (book_delta d ∷ events) =
    let later = market_messages pair seq events in
    if pair_eqb d.pair pair then delta seq d.side d.price d.qty ∷ later else later
market_messages pair seq (trade t ∷ events) =
    let later = market_messages pair seq events in
    if pair_eqb t.pair pair then tick seq t.price t.qty t.taker_side ∷ later else later
market_messages pair seq (_ ∷ events) = market_messages pair seq events

-- The messages of a batch on the public feed of a pair.
unfoldable pub public_feed : Pair → EventBatch → List MarketMessage
public_feed pair batch = market_messages pair batch.seq batch.events

-- The owner of an event on the private feed.
unfoldable pub owner_of : Event → Option AccountId
owner_of (order_accepted o) = some o.account_id
owner_of (order_updated o) = some o.account_id
owner_of _ = none

-- The loop over the events of a batch in `private_orders_loop`.
unfoldable pub private_feed : AccountId → List Event → List Event
private_feed account_id [] = []
private_feed account_id (event ∷ events) =
    let later = private_feed account_id events in
    elim (owner_of event) [
      | none ↦ later
      | some owner ↦ if nat_eqb owner account_id then event ∷ later else later
    ]
