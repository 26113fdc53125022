-- ===== src/Ledger/Total.antt =====
-- How much of a currency the ledger holds over all accounts, and how a write to one entry moves it.
use cex_matching_engine.Prelude.{
  ℕ, ◌+◌, ◌≤◌, ◌≡◌, ◌≢◌, refl, Option, none, some, [], ◌∷◌, arith, if◌then◌else◌, nat_eq, sum_of,
  Option-cases, inl, inr, ◌<◌, u64_mod, add_u64-eq, sub_u64-eq,
}
use cex_matching_engine.Prelude.HashMap
use cex_matching_engine.Prelude.HashMap.{HashMap}
use cex_matching_engine.Market.{AccountId, Currency, currency_eqb, currency_eqb_iff, currency_eq}
use cex_matching_engine.Ledger.Balances.{available_of, reserved_of}
use cex_matching_engine.Ledger.{
  Balance, Ledger, no_balance, balance_of, set_balance, mark, credit, debit, credited, debited,
}

abbrev pub worth : Balance → ℕ
worth b = b.available + b.reserved

-- what one account's map holds of a currency
abbrev account_worth : Currency → HashMap Currency Balance → ℕ
account_worth c m = worth (HashMap.get_or no_balance c m)

unfoldable pub total : Currency → Ledger → ℕ
total c l = sum_of (λ (e : AccountId × HashMap Currency Balance). account_worth c e.1) l.balances

module _ {ℓ} {V : Type ℓ} (f : V → ℕ) where
  abbrev worth_or_zero : Option V → ℕ
  worth_or_zero none = 0
  worth_or_zero (some v) = f v

  sum_of-insert :
      (k : ℕ) (v : V) (m : HashMap ℕ V)
      → sum_of (λ (e : ℕ × V). f e.1) (HashMap.insert k v m) + worth_or_zero (HashMap.get k m)
        ≡ sum_of (λ (e : ℕ × V). f e.1) m + f v
  unfolding HashMap.insert HashMap.get
  sum_of-insert k v [] = omega arith
  sum_of-insert k v ((j, w) ∷ m) = ground (arith, sum_of-insert k v m)

  get-le-sum_of :
      (k : ℕ) (m : HashMap ℕ V) → worth_or_zero (HashMap.get k m) ≤ sum_of (λ (e : ℕ × V). f e.1) m
  unfolding HashMap.get
  get-le-sum_of k [] = omega arith
  get-le-sum_of k ((j, w) ∷ m) = ground (arith, get-le-sum_of k m)

  two_gets-le-sum_of :
      (k i : ℕ) (m : HashMap ℕ V)
      → k ≢ i
      → worth_or_zero (HashMap.get k m) + worth_or_zero (HashMap.get i m)
        ≤ sum_of (λ (e : ℕ × V). f e.1) m
  unfolding HashMap.get
  two_gets-le-sum_of k i [] h = omega arith
  two_gets-le-sum_of k i ((j, w) ∷ m) h =
      ground (arith, two_gets-le-sum_of k i m, get-le-sum_of k m, get-le-sum_of i m)

-- A write to one entry moves the total of its currency by the difference, and no other total.
pub total-set_balance :
    (a : AccountId) (c : Currency) (b : Balance) (l : Ledger) (c' : Currency)
    → total c' (set_balance a c b l) + (if currency_eqb c' c then worth (balance_of a c l) else 0)
      ≡ total c' l + (if currency_eqb c' c then worth b else 0)
unfolding total set_balance balance_of HashMap.get_or
total-set_balance a c b l c' = elim (Option-cases (HashMap.get a l.balances)) [
  | inl e ↦ ground (
    arith,
    e,
    sum_of-insert (account_worth c') a (HashMap.insert c b []) l.balances,
    HashMap.get-insert c' c b [],
    currency_eqb_iff c' c,
  )
  | inr (m, e) ↦ ground (
    arith,
    e,
    sum_of-insert (account_worth c') a (HashMap.insert c b m) l.balances,
    HashMap.get-insert c' c b m,
    currency_eqb_iff c' c,
  )
]

pub total-mark :
    (a : AccountId) (c : Currency) (l : Ledger) (c' : Currency) → total c' (mark a c l) ≡ total c' l
unfolding total mark
total-mark a c l c' = refl

-- No account holds more than there is.
pub worth-le-total :
    (a : AccountId) (c : Currency) (l : Ledger) → worth (balance_of a c l) ≤ total c l
unfolding total balance_of HashMap.get_or
worth-le-total a c l = elim (Option-cases (HashMap.get a l.balances)) [
  | inl e ↦ rw (e, HashMap.get) (omega arith)
  | inr (m, e) ↦ ground (arith, e, get-le-sum_of (account_worth c) a l.balances)
]

-- Nor do two accounts together.
pub two_worths-le-total :
    (a b : AccountId) (c : Currency) (l : Ledger)
    → a ≢ b
    → worth (balance_of a c l) + worth (balance_of b c l) ≤ total c l
unfolding total balance_of HashMap.get_or HashMap.get
two_worths-le-total a b c l h =
    ground (arith, two_gets-le-sum_of (account_worth c) a b l.balances h)

-- an amount of one currency, as seen from another
abbrev pub of_currency : Currency → ℕ → Currency → ℕ
of_currency c amount c' = if currency_eqb c' c then amount else 0

module _ (a : AccountId) (c : Currency) (amount : ℕ) (l : Ledger) (c' : Currency) where
  pub total-credit :
      available_of a c l + amount < u64_mod
      → total c' (credit a c amount l) ≡ total c' l + of_currency c amount c'
  unfolding credit
  total-credit h = ground (
    arith,
    total-set_balance a c (credited amount (balance_of a c l)) l c',
    add_u64-eq (available_of a c l) amount,
  )

  pub total-debit :
      amount ≤ reserved_of a c l
      → reserved_of a c l < u64_mod
      → total c' (debit a c amount l) + of_currency c amount c' ≡ total c' l
  unfolding debit
  total-debit h k = ground (
    arith,
    total-set_balance a c (debited amount (balance_of a c l)) l c',
    sub_u64-eq (reserved_of a c l) amount,
  )
