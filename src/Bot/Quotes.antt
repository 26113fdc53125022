-- ===== src/Bot/Quotes.antt =====
-- bin/bot.rs: the prices of the quotes, against each other, against those before and against the
-- engine's band.
use cex_matching_engine.Prelude.{
  [], ◌∷◌, refl, ℕ, zero, suc, ◌+◌, ◌<◌, ◌≤◌, ◌≡◌, Option, List, arith, All, add_u64,
  saturating_sub, ◌⊎◌, inl, inr, Bool-cases, nat_eqb, true, saturating_mul, saturating_add,
}
use cex_matching_engine.Prelude.Int.{ℤ, pos, negsuc}
use cex_matching_engine.Book.Types.{bid, ask, limit, market}
use cex_matching_engine.Engine.State.{demo_deposit_ceiling, price_band}
use cex_matching_engine.Bot.{
  Call, place, cancel, deposit, maker, taker, below, quotes, walk, reroll, trend_of,
  demo_deposit_ceiling, nat_eqb, cancels, prints, chunk, deposits, ◌∷◌, cid, Currency, Pair, Role,
  some,
}
use cex_matching_engine.Market.{Currency, Pair, usd, sol}
use cex_matching_engine.Engine.Operations.{in_band}

-- The trend is -1, 0 or 1.
abbrev pub IsTrend : ℤ → Type 0
IsTrend trend = (trend ≡ negsuc 0) ⊎ ((trend ≡ pos 0) ⊎ (trend ≡ pos 1))

trend_of-IsTrend : (n : ℕ) → IsTrend (trend_of n)
unfolding trend_of
trend_of-IsTrend n = elim (Bool-cases (nat_eqb n 0)) [
  | inl down ↦ rw (down, trend_of) (inl refl)
  | inr other ↦ elim (Bool-cases (nat_eqb n 1)) [
    | inl up ↦ rw (other, up, trend_of) (inr (inr refl))
    | inr flat ↦ rw (other, flat, trend_of) (inr (inl refl))
  ]
]

pub reroll-IsTrend : (trend : ℤ) (rng : ℕ) → IsTrend trend → IsTrend (reroll trend rng).0
unfolding reroll
reroll-IsTrend trend rng h = elim (Bool-cases (nat_eqb (below 6 rng).0 0)) [
  | inl again ↦ rw (again, reroll) (trend_of-IsTrend (below 3 (below 6 rng).1).0)
  | inr kept ↦ rw (kept, reroll) h
]

pub walk_clamped :
    (trend : ℤ) (roll mid : ℕ) → (60 ≤ walk trend roll mid) × (walk trend roll mid ≤ 160)
unfolding walk
walk_clamped trend roll mid = ground arith

-- Within the clamp a walk goes one step at most.
pub walk_bounds :
    (trend : ℤ) (roll mid : ℕ)
    → 60 ≤ mid
    → mid ≤ 160
    → (walk trend roll mid ≤ mid + 1) × (mid ≤ walk trend roll mid + 1)
unfolding walk add_u64 saturating_sub
walk_bounds trend roll mid h k = ground arith

pub below_bounds : (n x : ℕ) → 0 < n → (below n x).0 < n
unfolding below
below_bounds n x h = grind arith

-- What a call of the bot is, around a middle price.
abbrev pub IsMade : ℕ → Call → Type 0
IsMade mid (place n maker limit bid price size) =
    (price < mid) × (mid ≤ price + 10) × (1 ≤ size) × (size ≤ 5)
IsMade mid (place n maker limit ask price size) =
    (mid < price) × (price ≤ mid + 10) × (1 ≤ size) × (size ≤ 5)
IsMade mid (place n taker market side price size) = (price ≡ 0) × (1 ≤ size) × (size ≤ 3)
IsMade mid (place n maker market side price size) = ⊥
IsMade mid (place n taker limit side price size) = ⊥
IsMade mid (cancel n role id) = role ≡ maker
IsMade mid (deposit n role c amount) = amount ≤ demo_deposit_ceiling c

pub quotes-IsMade :
    (answer : ℕ → Option ℕ) (mid n i : ℕ) (ids : List ℕ) (number rng : ℕ)
    → 60 ≤ mid
    → i + n ≤ 10
    → All (IsMade mid) (quotes answer mid n i ids number rng).calls
unfolding quotes saturating_sub
quotes-IsMade answer mid zero i ids number rng low h = tt
quotes-IsMade answer mid (suc n) i ids number rng low h =
    let (bid_extra, rng1) = below 5 rng in
    let bid_size = below_bounds 5 rng (omega arith) in
    let ask_size = below_bounds 5 (below 5 rng).1 (omega arith) in
    (
      (omega arith, omega arith, omega arith, omega arith),
      (
        (omega arith, omega arith, omega arith, omega arith),
        quotes-IsMade answer mid n (i + 1) _ _ _ low (omega arith),
      ),
    )

pub cancels-IsMade : (mid : ℕ) (ids : List ℕ) (number : ℕ) → All (IsMade mid) (cancels ids number).0
unfolding cancels
cancels-IsMade mid [] number = tt
cancels-IsMade mid (id ∷ ids) number = (refl, cancels-IsMade mid ids (cid number))

pub prints-IsMade :
    (mid : ℕ) (trend : ℤ) (n number rng : ℕ) → All (IsMade mid) (prints trend n number rng).0
unfolding prints
prints-IsMade mid trend zero number rng = tt
prints-IsMade mid trend (suc n) number rng =
    let size = below_bounds 3 (below 100 rng).1 (omega arith) in
    ((refl, omega arith, omega arith), prints-IsMade mid trend n (cid number) _)

chunk-le : (c : Currency) → chunk c ≤ demo_deposit_ceiling c
unfolding chunk
chunk-le usd = omega arith
chunk-le sol = omega arith

pub deposits-IsMade :
    (mid : ℕ) (pair : Pair) (roles : List Role) (number : ℕ)
    → All (IsMade mid) (deposits pair roles number).0
unfolding deposits
deposits-IsMade mid pair [] number = tt
deposits-IsMade mid pair (role ∷ roles) number =
    (chunk-le pair.quote, (chunk-le pair.base, deposits-IsMade mid pair roles _))

-- A price of a quote is one that the engine takes after a trade at `last`, or the call is no quote.
abbrev pub Accepted : ℕ → Call → Type 0
Accepted last (place n role limit side price size) = in_band (some 2000) (some last) price ≡ true
Accepted last _ = Unit

-- A bid is below the ask, and an ask above the bid, of the book that was read.
abbrev pub ClearOf : ℕ → ℕ → Call → Type 0
ClearOf best_bid best_ask (place n role limit bid price size) = price < best_ask
ClearOf best_bid best_ask (place n role limit ask price size) = best_bid < price
ClearOf best_bid best_ask _ = Unit

band_holds :
    (last mid price : ℕ)
    → 60 ≤ mid
    → mid ≤ 160
    → last ≤ mid + 1
    → mid ≤ last + 1
    → mid ≤ price + 10
    → price ≤ mid + 10
    → in_band (some 2000) (some last) price ≡ true
unfolding in_band price_band saturating_mul saturating_sub saturating_add
band_holds last mid price low high near_above near_below above below' = ground arith

pub Accepted-of_IsMade :
    (last mid : ℕ) (c : Call)
    → 60 ≤ mid
    → mid ≤ 160
    → last ≤ mid + 1
    → mid ≤ last + 1
    → IsMade mid c
    → Accepted last c
Accepted-of_IsMade last mid (place n maker limit bid price size) low high up down made =
    band_holds last mid price low high up down made.1 (omega arith)
Accepted-of_IsMade last mid (place n maker limit ask price size) low high up down made =
    band_holds last mid price low high up down (omega arith) made.1
Accepted-of_IsMade last mid (place n taker limit side price size) low high up down made =
    absurd made
Accepted-of_IsMade last mid (place n role market side price size) low high up down made = tt
Accepted-of_IsMade last mid (cancel n role id) low high up down made = tt
Accepted-of_IsMade last mid (deposit n role c amount) low high up down made = tt

pub ClearOf-of_IsMade :
    (best_bid best_ask mid : ℕ) (c : Call)
    → best_bid < mid + 1
    → mid < best_ask + 1
    → IsMade mid c
    → ClearOf best_bid best_ask c
ClearOf-of_IsMade b a mid (place n maker limit bid price size) low high made = omega arith
ClearOf-of_IsMade b a mid (place n maker limit ask price size) low high made = omega arith
ClearOf-of_IsMade b a mid (place n taker limit side price size) low high made = absurd made
ClearOf-of_IsMade b a mid (place n role market side price size) low high made = tt
ClearOf-of_IsMade b a mid (cancel n role id) low high made = tt
ClearOf-of_IsMade b a mid (deposit n role c amount) low high made = tt
