-- ===== src/Market/Symbol.antt =====
-- market.rs: the texts of currencies and pairs, `Display`, `FromStr` and `TryFrom<String>`. The text
-- of an error is left out.
use mathlib.Core.Path.{ap₂}
use cex_matching_engine.Prelude.{
  ◌>>=◌, ◌∙◌, ◌≡◌, refl, Option, none, some, ◌∷◌, ◌++◌, arith, if◌then◌else◌,
}
use cex_matching_engine.Prelude.Text.{
  Text, codes, text_eqb, text_eqb_sound, split_once, split_once-some,
}
use cex_matching_engine.Market.{Currency, usd, sol, Pair}

unfoldable pub show_currency : Currency → Text
show_currency usd = codes "USD"
show_currency sol = codes "SOL"

-- `Currency::from_str`
unfoldable pub parse_currency : Text → Option Currency
parse_currency s =
    if text_eqb s (codes "USD")
    then some usd
    else if text_eqb s (codes "SOL")
    then some sol
    else none

unfoldable pub show_pair : Pair → Text
unfolding show_currency
show_pair p = show_currency p.base ++ b'-' ∷ show_currency p.quote

-- `Pair::try_from`
unfoldable pub parse_pair : Text → Option Pair
unfolding parse_currency
parse_pair s = do
  (base, quote) ← split_once b'-' s
  b ← parse_currency base
  q ← parse_currency quote
  some (record { base = b; quote = q })

parse_pair-show_all :
    (b q : Currency)
    → parse_pair (show_pair (record { base = b; quote = q }))
      ≡ some (record { base = b; quote = q })
unfolding parse_pair show_pair split_once
parse_pair-show_all usd usd = refl
parse_pair-show_all usd sol = refl
parse_pair-show_all sol usd = refl
parse_pair-show_all sol sol = refl

-- Every pair is read back from its text.
pub parse_pair-show_pair : (p : Pair) → parse_pair (show_pair p) ≡ some p
parse_pair-show_pair p = parse_pair-show_all p.base p.quote

parse_currency_sound : (s : Text) (c : Currency) → parse_currency s ≡ some c → s ≡ show_currency c
unfolding parse_currency show_currency
parse_currency_sound s usd e =
    ground (arith, text_eqb_sound s (codes "USD"), text_eqb_sound s (codes "SOL"))
parse_currency_sound s sol e =
    ground (arith, text_eqb_sound s (codes "USD"), text_eqb_sound s (codes "SOL"))

both_sound :
    (x y : Text) (p : Pair) (b q : Option Currency)
    → parse_currency x ≡ b
    → parse_currency y ≡ q
    → (b >>= λ b'. q >>= λ q'. some (record { base = b'; quote = q' })) ≡ some p
    → (x ≡ show_currency p.base) × (y ≡ show_currency p.quote)
both_sound x y p none q eb eq e = cc
both_sound x y p (some b) none eb eq e = cc
both_sound x y p (some b) (some q) eb eq e =
    ground (arith, parse_currency_sound x b eb, parse_currency_sound y q eq)

split_sound :
    (s : Text) (p : Pair) (o : Option (Text × Text))
    → split_once b'-' s ≡ o
    → parse_pair s ≡ some p
    → s ≡ show_pair p
unfolding parse_pair show_pair
split_sound s p none found e = ground arith
split_sound s p (some (x, y)) found e =
    let both = both_sound x y p (parse_currency x) (parse_currency y) refl refl (ground arith) in
    split_once-some b'-' s x y found ∙ ap₂ (λ a b. a ++ b'-' ∷ b) both.0 both.1

-- Nothing but the text of a pair is read as that pair.
parse_pair_sound : (s : Text) (p : Pair) → parse_pair s ≡ some p → s ≡ show_pair p
parse_pair_sound s p e = split_sound s p (split_once b'-' s) refl e
