-- ===== src/Bot/Ticks.antt =====
-- bin/bot.rs: what a round of the loop asks of the API.
use cex_matching_engine.Prelude.{
  ◌+◌, ◌/◌, ◌<◌, u64_mod, some, All-map, add_u64-eq, ap, ℕ, ◌%◌, ◌≤◌, Option, [], ◌∷◌, arith, All,
  All-append, inl, inr, Bool-cases, nat_eqb, ◌≡◌,
}
use cex_matching_engine.Market.{Pair}
use cex_matching_engine.Bot.{
  highest, lowest, Bot, BookPrices, tick, topup, below, walk, reroll, anchored, levels, topup_every,
  maker, taker,
}
use cex_matching_engine.Bot.Quotes.{
  Accepted, ClearOf, Accepted-of_IsMade, ClearOf-of_IsMade, IsTrend, IsMade, reroll-IsTrend,
  walk_clamped, quotes-IsMade, cancels-IsMade, prints-IsMade, deposits-IsMade, walk_bounds,
}

topup-IsMade :
    (mid : ℕ) (pair : Pair) (ticks number : ℕ) → All (IsMade mid) (topup pair ticks number).0
unfolding topup
topup-IsMade mid pair ticks number = elim (Bool-cases (nat_eqb (ticks % topup_every) 0)) [
  | inl due ↦ rw (due, topup) (deposits-IsMade mid pair (maker ∷ taker ∷ []) number)
  | inr early ↦ rw (early, topup) tt
]

-- From a trend of -1, 0 or 1 a round ends with such a trend and a middle price from 60 to 160. All
-- that it asks for is: maker's bids below that price and maker's asks above it, at most ten off
-- and of one to five units; taker's market orders of one to three; cancellations of maker's
-- orders; and deposits within the engine's ceiling.
pub tick-IsMade :
    (pair : Pair) (answer : ℕ → Option ℕ) (book : Option BookPrices) (b : Bot)
    → IsTrend b.trend
    → let (calls, b') = tick pair answer book b in
      (60 ≤ b'.mid) × (b'.mid ≤ 160) × IsTrend b'.trend × All (IsMade b'.mid) calls
unfolding tick
tick-IsMade pair answer book b h =
    let (trend, rng1) = reroll b.trend b.rng in
    let (roll, rng2) = below 6 rng1 in
    let (low, high) = walk_clamped trend roll (anchored book b.mid) in
    let made = IsMade (walk trend roll (anchored book b.mid)) in
    (
      low,
      high,
      reroll-IsTrend b.trend b.rng h,
      All-append made _ _ (topup-IsMade _ pair _ b.next_cid) (
          All-append made _ _ (quotes-IsMade answer _ levels 0 [] _ _ low (omega arith))
            (All-append made _ _ (cancels-IsMade _ b.resting _) (prints-IsMade _ trend _ _ _))),
    )

anchored-some :
    (book : BookPrices) (mid best_bid best_ask : ℕ)
    → highest book.bids ≡ some best_bid
    → lowest book.asks ≡ some best_ask
    → best_bid + best_ask < u64_mod
    → anchored (some book) mid ≡ (best_bid + best_ask) / 2
unfolding anchored
anchored-some book mid best_bid best_ask bids asks fits =
    rw (bids, asks, anchored) (ap (λ (n : ℕ). n / 2) (add_u64-eq best_bid best_ask fits))

-- The middle price moves one step at most from the middle of the book.
pub tick-mid :
    (pair : Pair) (answer : ℕ → Option ℕ) (book : BookPrices) (b : Bot) (best_bid best_ask : ℕ)
    → highest book.bids ≡ some best_bid
    → lowest book.asks ≡ some best_ask
    → 60 ≤ (best_bid + best_ask) / 2
    → (best_bid + best_ask) / 2 ≤ 160
    → ((tick pair answer (some book) b).1.mid ≤ (best_bid + best_ask) / 2 + 1)
      × ((best_bid + best_ask) / 2 ≤ (tick pair answer (some book) b).1.mid + 1)
unfolding tick
tick-mid pair answer book b best_bid best_ask bids asks low high =
    let (trend, rng1) = reroll b.trend b.rng in
    rw (anchored-some book b.mid best_bid best_ask bids asks (omega arith))
      (walk_bounds trend (below 6 rng1).0 ((best_bid + best_ask) / 2) low high)

-- Where the engine's last trade was at most one off the middle price that a round ends with, every
-- quote of the round is within the engine's band around that trade.
pub tick-Accepted :
    (pair : Pair) (answer : ℕ → Option ℕ) (book : Option BookPrices) (b : Bot) (last : ℕ)
    → IsTrend b.trend
    → last ≤ (tick pair answer book b).1.mid + 1
    → (tick pair answer book b).1.mid ≤ last + 1
    → All (Accepted last) (tick pair answer book b).0
tick-Accepted pair answer book b last h up down =
    let (low, high, trend, made) = tick-IsMade pair answer book b h in
    let mid = (tick pair answer book b).1.mid in
    All-map (IsMade mid) (Accepted last) _
      (λ c is_made. Accepted-of_IsMade last mid c low high up down is_made) made

-- Where the book that was read has its best bid two below its best ask or more, and the middle
-- between them is from 60 to 160, no bid of the round reaches that ask and no ask that bid.
pub tick-ClearOf :
    (pair : Pair) (answer : ℕ → Option ℕ) (book : BookPrices) (b : Bot) (best_bid best_ask : ℕ)
    → IsTrend b.trend
    → highest book.bids ≡ some best_bid
    → lowest book.asks ≡ some best_ask
    → best_bid + 2 ≤ best_ask
    → 60 ≤ (best_bid + best_ask) / 2
    → (best_bid + best_ask) / 2 ≤ 160
    → All (ClearOf best_bid best_ask) (tick pair answer (some book) b).0
tick-ClearOf pair answer book b best_bid best_ask h bids asks apart low high =
    let (low', high', trend, made) = tick-IsMade pair answer (some book) b h in
    let mid = (tick pair answer (some book) b).1.mid in
    let (up, down) = tick-mid pair answer book b best_bid best_ask bids asks low high in
    All-map (IsMade mid) (ClearOf best_bid best_ask) _
      (λ c is_made. ClearOf-of_IsMade best_bid best_ask mid c (omega arith) (omega arith) is_made)
      made
