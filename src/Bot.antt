-- ===== src/Bot.antt =====
-- bin/bot.rs: the market maker of the demo. A tick of its loop is a function of its variables, of
-- the book that it reads and of the answers to its calls, which are listed in order; the renewal of
-- its tokens and the pauses are left out.
pub mod Quotes
pub mod Ticks
use Prim.Native.Nat.{bit_xor}
use cex_matching_engine.Prelude.{
  ℕ, zero, suc, ◌+◌, ◌-◌, ◌*◌, ◌/◌, ◌%◌, max, min, Option, none, some, List, [], ◌∷◌, ◌++◌,
  if◌then◌else◌, ltb, nat_eqb, add_u64, saturating_sub, u64_mod,
}
use cex_matching_engine.Prelude.Int.{ℤ, pos, negsuc, ◌+ℤ◌, as_u64, times}
use cex_matching_engine.Market.{Currency, usd, sol, Pair}
use cex_matching_engine.Book.Types.{Side, bid, ask, OrderType, market, limit}
use cex_matching_engine.Engine.State.{demo_deposit_ceiling}

abbrev pub levels : ℕ
levels = 10

abbrev pub spread : ℕ
spread = 1

abbrev pub topup_every : ℕ
topup_every = 25

-- `Rng::next`: the new state, which is also what is drawn.
unfoldable pub next : ℕ → ℕ
next x =
    let a = bit_xor x ((x * 8192) % u64_mod) in
    let b = bit_xor a (a / 128) in bit_xor b ((b * 131072) % u64_mod)

-- `Rng::below`: what is drawn, and the state.
unfoldable pub below : ℕ → ℕ → ℕ × ℕ
below n x = (next x % max n 1, next x)

pub data Role : Type 0 where
  maker taker : Role

-- The calls of the API, each with the number in its header.
pub data Call : Type 0 where
  place : ℕ → Role → OrderType → Side → ℕ → ℕ → Call
  cancel : ℕ → Role → ℕ → Call
  deposit : ℕ → Role → Currency → ℕ → Call

-- The variables of the loop. `trend` is -1, 0 or 1.
pub record Bot : Type 0 where
  pub rng : ℕ
  pub next_cid : ℕ
  pub mid : ℕ
  pub trend : ℤ
  pub resting : List ℕ
  pub ticks : ℕ

-- `Bot::cid`
unfoldable pub cid : ℕ → ℕ
cid n = add_u64 n 1

-- The book that was read: the prices on each side.
pub record BookPrices : Type 0 where
  pub bids : List ℕ
  pub asks : List ℕ

unfoldable pub highest : List ℕ → Option ℕ
highest [] = none
highest (p ∷ ps) = elim (highest ps) [ none ↦ some p | some q ↦ some (max p q) ]

unfoldable pub lowest : List ℕ → Option ℕ
lowest [] = none
lowest (p ∷ ps) = elim (lowest ps) [ none ↦ some p | some q ↦ some (min p q) ]

unfoldable pub middle : Option ℕ → Option ℕ → ℕ → ℕ
middle (some b) (some a) mid = add_u64 b a / 2
middle _ _ mid = mid

-- `mid` after the book was read, where it was.
unfoldable pub anchored : Option BookPrices → ℕ → ℕ
unfolding middle highest lowest
anchored none mid = mid
anchored (some book) mid = middle (highest book.bids) (lowest book.asks) mid

unfoldable pub trend_of : ℕ → ℤ
trend_of n = if nat_eqb n 0 then negsuc 0 else if nat_eqb n 1 then pos 1 else pos 0

-- The trend and the state, after it was rolled for.
unfoldable pub reroll : ℤ → ℕ → ℤ × ℕ
unfolding trend_of
reroll trend rng =
    let (roll, rng1) = below 6 rng in
    let (way, rng2) = below 3 rng1 in if nat_eqb roll 0 then (trend_of way, rng2) else (trend, rng1)

abbrev pub clamp : ℕ → ℕ → ℕ → ℕ
clamp low high n = if ltb n low then low else if ltb high n then high else n

unfoldable pub walk : ℤ → ℕ → ℕ → ℕ
unfolding saturating_sub
walk trend roll mid =
    let up_chance = as_u64 (pos 2 +ℤ trend) in
    clamp 60 160 (
      if ltb roll up_chance
      then add_u64 mid 1
      else if ltb roll 4
      then saturating_sub mid 1
      else mid)

-- The orders that were placed, out of the answers to the calls: an id for each that succeeded.
abbrev pub placed : Option ℕ → List ℕ → List ℕ
placed none ids = ids
placed (some id) ids = ids ++ id ∷ []

pub record Quoting : Type 0 where
  pub calls : List Call
  pub ids : List ℕ
  pub number : ℕ
  pub seed : ℕ

-- The quotes from level `i` on, `n` of them on each side; `answer` gives the id of an order by the
-- number of its call.
unfoldable pub quotes : (ℕ → Option ℕ) → ℕ → ℕ → ℕ → List ℕ → ℕ → ℕ → Quoting
quotes answer mid zero i ids number rng = record {
  calls = [];
  ids = ids;
  number = number;
  seed = rng;
}
quotes answer mid (suc n) i ids number rng =
    let (bid_extra, rng1) = below 5 rng in
    let bid_call = cid number in
    let (ask_extra, rng2) = below 5 rng1 in
    let ask_call = cid bid_call in
    let rest =
      quotes answer mid n (i + 1) (placed (answer ask_call) (placed (answer bid_call) ids)) ask_call
        rng2 in
    record rest {
      calls =
          place bid_call maker limit bid (saturating_sub mid (spread + i)) (1 + bid_extra)
          ∷ place ask_call maker limit ask (mid + spread + i) (1 + ask_extra)
          ∷ rest.calls;
    }

unfoldable pub cancels : List ℕ → ℕ → List Call × ℕ
cancels [] number = ([], number)
cancels (id ∷ ids) number =
    let (calls, last) = cancels ids (cid number) in (cancel (cid number) maker id ∷ calls, last)

-- `n` prints of the taker.
unfoldable pub prints : ℤ → ℕ → ℕ → ℕ → List Call × ℕ × ℕ
prints trend zero number rng = ([], number, rng)
prints trend (suc n) number rng =
    let (roll, rng1) = below 100 rng in
    let bid_chance = as_u64 (pos 50 +ℤ times trend 25) in
    let side = if ltb roll bid_chance then bid else ask in
    let (extra, rng2) = below 3 rng1 in
    let (calls, last, seed) = prints trend n (cid number) rng2 in
    (place (cid number) taker market side 0 (1 + extra) ∷ calls, last, seed)

-- A fifth of what an account may hold.
unfoldable pub chunk : Currency → ℕ
chunk c = max (demo_deposit_ceiling c / 5) 1

unfoldable pub deposits : Pair → List Role → ℕ → List Call × ℕ
deposits pair [] number = ([], number)
deposits pair (role ∷ roles) number =
    let quote_call = cid number in
    let base_call = cid quote_call in
    let (calls, last) = deposits pair roles base_call in
    (
      deposit quote_call role pair.quote (chunk pair.quote)
          ∷ deposit base_call role pair.base (chunk pair.base)
          ∷ calls,
      last,
    )

unfoldable pub topup : Pair → ℕ → ℕ → List Call × ℕ
topup pair ticks number =
    if nat_eqb (ticks % topup_every) 0
    then deposits pair (maker ∷ taker ∷ []) number
    else ([], number)

-- A round of the loop.
unfoldable pub tick : Pair → (ℕ → Option ℕ) → Option BookPrices → Bot → List Call × Bot
tick pair answer book b =
    let ticks = add_u64 b.ticks 1 in
    let (topups, n1) = topup pair ticks b.next_cid in
    let (trend, rng1) = reroll b.trend b.rng in
    let (roll, rng2) = below 6 rng1 in
    let mid = walk trend roll (anchored book b.mid) in
    let q = quotes answer mid levels 0 [] n1 rng2 in
    let (pulled, n2) = cancels b.resting q.number in
    let (more, rng3) = below 4 q.seed in
    let (prints_made, n3, rng4) = prints trend (2 + more) n2 rng3 in
    (
      topups ++ (q.calls ++ (pulled ++ prints_made)),
      record {
        rng = rng4;
        next_cid = n3;
        mid = mid;
        trend = trend;
        resting = q.ids;
        ticks = ticks;
      },
    )
