-- ===== src/Candle.antt =====
-- candle.rs: the labels of candle intervals and the widths that are maintained.
use cex_matching_engine.Prelude.{
  ℕ, ◌≡◌, Option, none, some, List, [], ◌∷◌, if◌then◌else◌, nat_eqb, arith, Bool-cases, inl, inr,
  Bool, true, false, ◌⊎◌, Option-cases,
}
use cex_matching_engine.Prelude.Text.{Text, codes, text_eqb}

-- `INTERVAL_WIDTHS`
abbrev pub interval_widths : List ℕ
interval_widths = 1 ∷ 900 ∷ 3600 ∷ 14400 ∷ 86400 ∷ 604800 ∷ []

unfoldable pub interval_seconds : Text → Option ℕ
interval_seconds label =
    if text_eqb label (codes "1s")
    then some 1
    else if text_eqb label (codes "15m")
    then some 900
    else if text_eqb label (codes "1h")
    then some 3600
    else if text_eqb label (codes "4h")
    then some 14400
    else if text_eqb label (codes "1d")
    then some 86400
    else if text_eqb label (codes "1w")
    then some 604800
    else none

abbrev pub maintained : ℕ → List ℕ → Bool
maintained n [] = false
maintained n (w ∷ ws) = if nat_eqb n w then true else maintained n ws

interval_seconds-maintained :
    (label : Text) (n : ℕ) → interval_seconds label ≡ some n → maintained n interval_widths ≡ true
unfolding interval_seconds
interval_seconds-maintained label n h = ground arith

abbrev pub label_of : ℕ → Text
label_of n =
    if nat_eqb n 1
    then codes "1s"
    else if nat_eqb n 900
    then codes "15m"
    else if nat_eqb n 3600
    then codes "1h"
    else if nat_eqb n 14400
    then codes "4h"
    else if nat_eqb n 86400
    then codes "1d"
    else codes "1w"

label_of-maintained :
    (n : ℕ) → maintained n interval_widths ≡ true → interval_seconds (label_of n) ≡ some n
unfolding interval_seconds
label_of-maintained n h = ground arith

-- A label asks for a width that is maintained, or for none; and every width that is maintained has
-- a label that asks for it.
interval_seconds-labels :
    (label : Text) (n : ℕ)
    → ((interval_seconds label ≡ none)
        ⊎ ((w : ℕ) × (interval_seconds label ≡ some w) × (maintained w interval_widths ≡ true)))
      × ((maintained n interval_widths ≡ false) ⊎ (interval_seconds (label_of n) ≡ some n))
interval_seconds-labels label n = (
  elim (Option-cases (interval_seconds label)) [
    | inl unknown ↦ inl unknown
    | inr (w, known) ↦ inr (w, known, interval_seconds-maintained label w known)
  ],
  elim (Bool-cases (maintained n interval_widths)) [
    | inl here ↦ inr (label_of-maintained n here)
    | inr other ↦ inl other
  ],
)
