-- ===== src/DbWriter/BalanceRows.antt =====
-- bin/db_writer.rs: a run over events writes the row of a balance, and twice over as once.
use cex_matching_engine.Prelude.{
  pair_eq, nat_eq, refl, ◌≡◌, Option, some, [], ◌∷◌, if◌then◌else◌, ◌⊎◌, inl, inr, ◌∙◌, ap, ◌==◌,
  Bool-cases, sym,
}
use cex_matching_engine.Prelude.HashMap
use cex_matching_engine.Prelude.HashMap.{HashMap, or_else}
use cex_matching_engine.Prelude.Text.{Text, text_eq}
use cex_matching_engine.Market.{AccountId}
use cex_matching_engine.Command.{
  Event, trade, balance_changed, order_accepted, order_cancelled, order_updated, book_delta,
}
use cex_matching_engine.DbWriter.Tables.{BalanceRow, set_row}
use cex_matching_engine.DbWriter.Stored.{Events, balances_step, balances_after}
use cex_matching_engine.Market.Symbol.{show_currency}

abbrev pub Balances : Type 0
Balances = HashMap (AccountId × Text) BalanceRow

-- A run of writes to a row keeps it or sets it to a value, whatever stood there.
abbrev IsWrite : (Option BalanceRow → Option BalanceRow) → Type 0
IsWrite f =
    ((o : Option BalanceRow) → f o ≡ o)
    ⊎ ((b : BalanceRow) × ((o : Option BalanceRow) → f o ≡ some b))

balance_step : AccountId × Text → Event → Option BalanceRow → Option BalanceRow
balance_step k (balance_changed b) o =
    if k == (b.account_id, show_currency b.currency)
    then some (record { available = b.available; reserved = b.reserved })
    else o
balance_step k _ o = o

pub balance_after : AccountId × Text → Events → Option BalanceRow → Option BalanceRow
balance_after k [] o = o
balance_after k ((id, e) ∷ es) o = balance_after k es (balance_step k e o)

get-balances_step :
    (k : AccountId × Text) (e : Event) (m : Balances)
    → HashMap.get k (balances_step e m) ≡ balance_step k e (HashMap.get k m)
unfolding balances_step balance_step set_row
get-balances_step k (balance_changed b) m = HashMap.get-insert k _ _ m
get-balances_step k (trade t) m = refl
get-balances_step k (order_accepted o) m = refl
get-balances_step k (order_cancelled o) m = refl
get-balances_step k (order_updated o) m = refl
get-balances_step k (book_delta d) m = refl

pub get-balances_after :
    (k : AccountId × Text) (es : Events) (m : Balances)
    → HashMap.get k (balances_after es m) ≡ balance_after k es (HashMap.get k m)
unfolding balances_after balance_after
get-balances_after k [] m = refl
get-balances_after k ((id, e) ∷ es) m =
    get-balances_after k es (balances_step e m) ∙ ap (balance_after k es) (get-balances_step k e m)

balance_step-IsWrite : (k : AccountId × Text) (e : Event) → IsWrite (balance_step k e)
unfolding balance_step
balance_step-IsWrite k (balance_changed b) =
    elim (Bool-cases (k == (b.account_id, show_currency b.currency))) [
      | inl same ↦ inr (record { available = b.available; reserved = b.reserved }, λ o. rw same)
      | inr other ↦ inl (λ o. rw other)
    ]
balance_step-IsWrite k (trade t) = inl (λ o. refl)
balance_step-IsWrite k (order_accepted o) = inl (λ o. refl)
balance_step-IsWrite k (order_cancelled o) = inl (λ o. refl)
balance_step-IsWrite k (order_updated o) = inl (λ o. refl)
balance_step-IsWrite k (book_delta d) = inl (λ o. refl)

balance_after-IsWrite : (k : AccountId × Text) (es : Events) → IsWrite (balance_after k es)
unfolding balance_after
balance_after-IsWrite k [] = inl (λ o. refl)
balance_after-IsWrite k ((id, e) ∷ es) = elim (balance_after-IsWrite k es) [
  | inr (b, sets) ↦ inr (b, λ o. sets (balance_step k e o))
  | inl keeps ↦ elim (balance_step-IsWrite k e) [
    | inl same ↦ inl (λ o. keeps (balance_step k e o) ∙ same o)
    | inr (b, sets) ↦ inr (b, λ o. keeps (balance_step k e o) ∙ sets o)
  ]
]

pub balance_after_twice :
    (k : AccountId × Text) (es : Events) (o : Option BalanceRow)
    → balance_after k es (balance_after k es o) ≡ balance_after k es o
balance_after_twice k es o = elim (balance_after-IsWrite k es) [
  | inl keeps ↦ keeps (balance_after k es o)
  | inr (b, sets) ↦ sets (balance_after k es o) ∙ sym (sets o)
]
