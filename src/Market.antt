-- ===== src/Market.antt =====
-- market.rs: currencies and trading pairs. Their texts are in Market/Symbol.
pub mod Symbol
use cex_matching_engine.Prelude.{
  ℕ, ◌≡◌, ◌↔◌, Bool, true, false, not, arith, Key, ◌==◌, if◌then◌else◌,
}

abbrev pub AccountId : Type 0
AccountId = ℕ

pub data Currency : Type 0 where
  usd sol : Currency

-- the derived `PartialEq`
abbrev pub currency_eqb : Currency → Currency → Bool
currency_eqb usd usd = true
currency_eqb sol sol = true
currency_eqb _ _ = false

pub currency_eqb_iff : (a b : Currency) → (currency_eqb a b ≡ true) ↔ (a ≡ b)
currency_eqb_iff a b = ground arith

instance abbrev pub currency_eq : Key Currency
currency_eq = record { same = currency_eqb; agrees = currency_eqb_iff }

pub record Pair : Type 0 where
  pub base : Currency
  pub quote : Currency

abbrev pub pair_eqb : Pair → Pair → Bool
pair_eqb p q = if p.base == q.base then p.quote == q.quote else false

pub pair_eqb_iff : (p q : Pair) → (pair_eqb p q ≡ true) ↔ (p ≡ q)
pair_eqb_iff p q = ground (arith, currency_eqb_iff p.base q.base, currency_eqb_iff p.quote q.quote)

instance abbrev pub market_pair_eq : Key Pair
market_pair_eq = record { same = pair_eqb; agrees = pair_eqb_iff }

-- `Pair::is_valid`
unfoldable pub is_valid : Pair → Bool
is_valid p = not (p.base == p.quote)
