-- ===== src/Ledger/Balances.antt =====
-- What the entries of the ledger read after a write, in the form that proofs about balances use.
use cex_matching_engine.Prelude.{
  ℕ, ◌+◌, ◌≤◌, ◌<◌, ◌≡◌, refl, Bool, ◌&&◌, arith, if◌then◌else◌, nat_eqb, nat_eqb_iff, u64_mod,
  add_u64-eq, sub_u64-eq, nat_eq, [],
}
use cex_matching_engine.Prelude.HashMap
use cex_matching_engine.Market.{AccountId, Currency, currency_eqb, currency_eqb_iff, currency_eq}
use cex_matching_engine.Ledger.{
  Balance, Ledger, balance_of, set_balance, mark, credit, debit, credited, debited,
}

-- Whether two entries are the same.
abbrev pub same_entry : AccountId → Currency → AccountId → Currency → Bool
same_entry a c a' c' = nat_eqb a' a && currency_eqb c' c

-- An amount at one entry, as seen from another.
abbrev pub share : AccountId → Currency → ℕ → AccountId → Currency → ℕ
share a c amount a' c' = if same_entry a c a' c' then amount else 0

abbrev pub available_of : AccountId → Currency → Ledger → ℕ
available_of a c l = (balance_of a c l).available

abbrev pub reserved_of : AccountId → Currency → Ledger → ℕ
reserved_of a c l = (balance_of a c l).reserved

pub balance_of-set_balance :
    (a : AccountId) (c : Currency) (b : Balance) (l : Ledger) (a' : AccountId) (c' : Currency)
    → balance_of a' c' (set_balance a c b l)
      ≡ (if same_entry a c a' c' then b else balance_of a' c' l)
unfolding balance_of set_balance HashMap.get_or
balance_of-set_balance a c b l a' c' = ground (
  arith,
  nat_eqb_iff a' a,
  currency_eqb_iff c' c,
  HashMap.get-insert a' a (HashMap.insert c b (HashMap.or_else [] (HashMap.get a l.balances)))
      l.balances,
  HashMap.get-insert c' c b (HashMap.or_else [] (HashMap.get a l.balances)),
)

pub balance_of-mark :
    (a : AccountId) (c : Currency) (l : Ledger) (a' : AccountId) (c' : Currency)
    → balance_of a' c' (mark a c l) ≡ balance_of a' c' l
unfolding balance_of mark
balance_of-mark a c l a' c' = refl

module _ (a : AccountId) (c : Currency) (amount : ℕ) (l : Ledger) (a' : AccountId)
    (c' : Currency) where
  pub available_of-credit :
      available_of a c l + amount < u64_mod
      → available_of a' c' (credit a c amount l) ≡ available_of a' c' l + share a c amount a' c'
  unfolding credit
  available_of-credit h = ground (
    arith,
    nat_eqb_iff a' a,
    currency_eqb_iff c' c,
    balance_of-set_balance a c (credited amount (balance_of a c l)) l a' c',
    add_u64-eq (available_of a c l) amount,
  )

  pub reserved_of-credit : reserved_of a' c' (credit a c amount l) ≡ reserved_of a' c' l
  unfolding credit
  reserved_of-credit = ground (
    arith,
    nat_eqb_iff a' a,
    currency_eqb_iff c' c,
    balance_of-set_balance a c (credited amount (balance_of a c l)) l a' c',
  )

  pub available_of-debit : available_of a' c' (debit a c amount l) ≡ available_of a' c' l
  unfolding debit
  available_of-debit = ground (
    arith,
    nat_eqb_iff a' a,
    currency_eqb_iff c' c,
    balance_of-set_balance a c (debited amount (balance_of a c l)) l a' c',
  )

  pub reserved_of-debit :
      amount ≤ reserved_of a c l
      → reserved_of a c l < u64_mod
      → reserved_of a' c' (debit a c amount l) + share a c amount a' c' ≡ reserved_of a' c' l
  unfolding debit
  reserved_of-debit h k = ground (
    arith,
    nat_eqb_iff a' a,
    currency_eqb_iff c' c,
    balance_of-set_balance a c (debited amount (balance_of a c l)) l a' c',
    sub_u64-eq (reserved_of a c l) amount,
  )
