-- ===== src/Ledger.antt =====
-- ledger.rs: the balances of every account, and the marks of those that a command changed.
pub mod Balances
pub mod Total
pub mod Writes
pub mod Settlement
pub mod Reserving
pub mod Marks
use cex_matching_engine.Prelude.{
  ℕ, Bool, true, false, Option, none, some, List, [], ltb, if◌then◌else◌, add_u64, sub_u64,
  checked_mul, nat_eq, pair_eq,
}
use cex_matching_engine.Prelude.HashMap
use cex_matching_engine.Prelude.HashMap.{HashMap, HashSet}
use cex_matching_engine.Market.{AccountId, Currency, Pair, currency_eq}
use cex_matching_engine.Reject.{Result, ok, err, insufficient_funds, invalid_amount}
use cex_matching_engine.Book.Types.{Side, bid, ask, Trade}

pub record Balance : Type 0 where
  pub available : ℕ
  pub reserved : ℕ

-- `Balance::default()`
abbrev pub no_balance : Balance
no_balance = record { available = 0; reserved = 0 }

pub record Ledger : Type 0 where
  pub balances : HashMap AccountId (HashMap Currency Balance)
  pub dirty : HashSet (AccountId × Currency)

-- What `entry(account_id).or_default().entry(currency).or_default()` reads.
unfoldable pub balance_of : AccountId → Currency → Ledger → Balance
balance_of account_id currency l =
    HashMap.get_or no_balance currency (HashMap.get_or [] account_id l.balances)

-- The write through that entry. The entry is there afterwards, also if nothing is changed in it.
unfoldable pub set_balance : AccountId → Currency → Balance → Ledger → Ledger
set_balance account_id currency b l = record l {
  balances =
      HashMap.insert account_id
        (HashMap.insert currency b (HashMap.get_or [] account_id l.balances)) l.balances;
}

-- `self.dirty.insert((account_id, currency))`
unfoldable pub mark : AccountId → Currency → Ledger → Ledger
mark account_id currency l = record l { dirty = HashMap.with_elem (account_id, currency) l.dirty }

-- The changes to one entry.
abbrev pub credited : ℕ → Balance → Balance
credited amount b = record b { available = add_u64 b.available amount }

abbrev pub debited : ℕ → Balance → Balance
debited amount b = record b { reserved = sub_u64 b.reserved amount }

abbrev pub withdrawn : ℕ → Balance → Balance
withdrawn amount b = record b { available = sub_u64 b.available amount }

abbrev pub set_aside : ℕ → Balance → Balance
set_aside amount b = record {
  available = sub_u64 b.available amount;
  reserved = add_u64 b.reserved amount;
}

abbrev pub handed_back : ℕ → Balance → Balance
handed_back amount b = record {
  available = add_u64 b.available amount;
  reserved = sub_u64 b.reserved amount;
}

unfoldable pub deposit : Currency → AccountId → ℕ → Ledger → ℕ × Ledger
deposit currency account_id amount l =
    let balance = credited amount (balance_of account_id currency l) in
    (balance.available, mark account_id currency (set_balance account_id currency balance l))

unfoldable pub held : AccountId → Currency → Ledger → ℕ
held account_id currency l = elim (HashMap.get account_id l.balances) [
  | none ↦ 0
  | some of_account ↦ elim (HashMap.get currency of_account) [
    | none ↦ 0
    | some b ↦ add_u64 b.available b.reserved
  ]
]

-- The three operations below make the entry before they test it, so that it stays after an error.
unfoldable pub withdraw : AccountId → Currency → ℕ → Ledger → Result (Unit {0}) × Ledger
withdraw account_id currency amount l =
    let balance = balance_of account_id currency l in
    if ltb balance.available amount
    then (err insufficient_funds, set_balance account_id currency balance l)
    else (
      ok tt,
      mark account_id currency (set_balance account_id currency (withdrawn amount balance) l),
    )

unfoldable pub reserve : AccountId → Currency → ℕ → Ledger → Result (Unit {0}) × Ledger
reserve account_id currency amount l =
    let balance = balance_of account_id currency l in
    if ltb balance.available amount
    then (err insufficient_funds, set_balance account_id currency balance l)
    else (
      ok tt,
      mark account_id currency (set_balance account_id currency (set_aside amount balance) l),
    )

unfoldable pub release : AccountId → Currency → ℕ → Ledger → Result (Unit {0}) × Ledger
release account_id currency amount l =
    let balance = balance_of account_id currency l in
    if ltb balance.reserved amount
    then (err invalid_amount, set_balance account_id currency balance l)
    else (
      ok tt,
      mark account_id currency (set_balance account_id currency (handed_back amount balance) l),
    )

-- `…entry(currency).or_default().available += amount`
unfoldable pub credit : AccountId → Currency → ℕ → Ledger → Ledger
credit account_id currency amount l =
    set_balance account_id currency (credited amount (balance_of account_id currency l)) l

-- `…entry(currency).or_default().reserved -= amount`
unfoldable pub debit : AccountId → Currency → ℕ → Ledger → Ledger
debit account_id currency amount l =
    set_balance account_id currency (debited amount (balance_of account_id currency l)) l

unfoldable pub move_funds : Pair → Trade → ℕ → Ledger → Ledger
move_funds pair trade cost l = elim trade.taker_side [
  | bid ↦ debit trade.maker_account pair.base trade.qty (
      credit trade.maker_account pair.quote cost (
        credit trade.taker_account pair.base trade.qty
          (debit trade.taker_account pair.quote cost l)))
  | ask ↦ credit trade.maker_account pair.base trade.qty (
      debit trade.maker_account pair.quote cost (
        debit trade.taker_account pair.base trade.qty
          (credit trade.taker_account pair.quote cost l)))
]

-- The marks at the end of `settle`.
unfoldable pub mark_trade : Pair → Trade → Ledger → Ledger
mark_trade pair trade l = mark trade.maker_account pair.base (
    mark trade.maker_account pair.quote
      (mark trade.taker_account pair.base (mark trade.taker_account pair.quote l)))

-- `none` is the panic of `expect`, where the cost of the trade overflows.
unfoldable pub settle : Pair → Trade → Ledger → Option Ledger
settle pair trade l = elim (checked_mul trade.price trade.qty) [
  | none ↦ none
  | some cost ↦ some (mark_trade pair trade (move_funds pair trade cost l))
]

unfoldable pub take_dirty : Ledger → List (AccountId × Currency) × Ledger
take_dirty l = (l.dirty, record l { dirty = [] })
