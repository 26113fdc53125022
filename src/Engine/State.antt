-- ===== src/Engine/State.antt =====
-- engine.rs: the state of the engine, its limits, and the window of idempotency keys.
use cex_matching_engine.Prelude.{
  ℕ, ◌/◌, max, Bool, true, false, Option, none, some, List, [], ◌∷◌, ◌++◌, ltb, if◌then◌else◌,
  length, nat_eq, pair_eq, u64_max, saturating_add, saturating_mul, saturating_sub,
}
use cex_matching_engine.Prelude.HashMap
use cex_matching_engine.Prelude.HashMap.{HashMap, HashSet}
use cex_matching_engine.Market.{AccountId, Currency, usd, sol, Pair}
use cex_matching_engine.Book.Types.{OrderBook}
use cex_matching_engine.Ledger.{Ledger}

pub record Limits : Type 0 where
  pub deposit_ceiling : Currency → ℕ
  pub price_band_bps : Option ℕ
  pub prevent_self_trade : Bool

abbrev pub demo_deposit_ceiling : Currency → ℕ
demo_deposit_ceiling usd = 100_000
demo_deposit_ceiling sol = 1_000

abbrev pub no_deposit_ceiling : Currency → ℕ
no_deposit_ceiling _ = u64_max

-- `Limits::default`
abbrev pub default_limits : Limits
default_limits = record {
  deposit_ceiling = demo_deposit_ceiling;
  price_band_bps = some 2000;
  prevent_self_trade = true;
}

-- `Limits::none`
abbrev pub no_limits : Limits
no_limits = record {
  deposit_ceiling = no_deposit_ceiling;
  price_band_bps = none;
  prevent_self_trade = false;
}

pub record Dedup : Type 0 where
  pub seen : HashSet (AccountId × ℕ)
  pub order : HashMap AccountId (List ℕ)

-- `DEDUP_WINDOW`
abbrev pub dedup_window : ℕ
dedup_window = 1000

-- `pop_front` where the queue has grown beyond the window: what is evicted and what is kept.
unfoldable pub evict : ℕ → List ℕ → Option ℕ × List ℕ
evict window [] = (none, [])
evict window (x ∷ recent) =
    if ltb window (length (x ∷ recent)) then (some x, recent) else (none, x ∷ recent)

unfoldable pub forget_key : AccountId → Option ℕ → HashSet (AccountId × ℕ) → HashSet (AccountId × ℕ)
forget_key account_id none seen = seen
forget_key account_id (some id) seen = HashMap.without (account_id, id) seen

-- `Dedup::insert`, with the window as an argument.
unfoldable pub insert_key : ℕ → AccountId → ℕ → Dedup → Bool × Dedup
insert_key window account_id client_order_id d =
    let (evicted, recent) =
      evict window (HashMap.get_or [] account_id d.order ++ client_order_id ∷ []) in
    if HashMap.contains (account_id, client_order_id) d.seen then (false, d) else (
      true,
      record {
        seen =
            forget_key account_id evicted (HashMap.with_elem (account_id, client_order_id) d.seen);
        order = HashMap.insert account_id recent d.order;
      },
    )

-- `price_band`
unfoldable pub price_band : ℕ → ℕ → ℕ × ℕ
price_band last bps =
    let delta = max (saturating_mul last bps / 10_000) 1 in
    (saturating_sub last delta, saturating_add last delta)

pub record Engine : Type 0 where
  pub books : HashMap Pair OrderBook
  pub order_pair : HashMap ℕ Pair
  pub next_order_id : ℕ
  pub next_seq : ℕ
  pub ledger : Ledger
  pub dedup : Dedup
  pub listed_pairs : HashSet Pair
  pub limits : Limits

-- `Engine::new`
abbrev pub new_engine : Engine
new_engine = record {
  books = [];
  order_pair = [];
  next_order_id = 0;
  next_seq = 0;
  ledger = record { balances = []; dirty = [] };
  dedup = record { seen = []; order = [] };
  listed_pairs = [];
  limits = default_limits;
}
