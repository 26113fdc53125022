-- ===== src/Engine/Faucet.antt =====
-- `deposit`: an open faucet, which the ceiling bounds.
use cex_matching_engine.Prelude.{
  ℕ, ◌+◌, ◌≤◌, ◌<◌, ◌≡◌, refl, arith, u64_mod, checked_add, add_u64-eq, Option-cases, inl, inr, ◌⊎◌,
  Bool-cases, ltb, subst,
}
use cex_matching_engine.Prelude.HashMap
use cex_matching_engine.Prelude.{nat_eq, nat_eqb_iff}
use cex_matching_engine.Market.{AccountId, Currency, currency_eq, currency_eqb_iff}
use cex_matching_engine.Reject.{Result, ok, err, invalid_amount, deposit_limit_exceeded}
use cex_matching_engine.Command.{DepositRequest}
use cex_matching_engine.Ledger
use cex_matching_engine.Ledger.{Ledger, balance_of, held, mark, set_balance, credited}
use cex_matching_engine.Ledger.Balances.{available_of, balance_of-set_balance, balance_of-mark}
use cex_matching_engine.Ledger.Total.{total, worth, of_currency, total-set_balance, total-mark}
use cex_matching_engine.Engine.State.{Engine}
use cex_matching_engine.Engine.Operations.{deposit}

abbrev pub worth_of : AccountId → Currency → Ledger → ℕ
worth_of a c l = worth (balance_of a c l)

-- What `held` reads is what the account is worth.
held-worth :
    (a : AccountId) (c : Currency) (l : Ledger)
    → worth_of a c l < u64_mod
    → held a c l ≡ worth_of a c l
unfolding held balance_of HashMap.get_or
held-worth a c l h = elim (Option-cases (HashMap.get a l.balances)) [
  | inl unknown ↦ ground (arith, unknown)
  | inr (m, known) ↦ elim (Option-cases (HashMap.get c m)) [
    | inl none_of ↦ ground (arith, known, none_of)
    | inr (b, some_of) ↦ ground (arith, known, some_of, add_u64-eq b.available b.reserved)
  ]
]

module _ (a : AccountId) (c : Currency) (n : ℕ) (l : Ledger)
    (h : worth_of a c l + n < u64_mod) where
  abbrev after : Ledger
  after = (Ledger.deposit c a n l).1

  worth_of-deposit : worth_of a c after ≡ worth_of a c l + n
  unfolding Ledger.deposit
  worth_of-deposit = ground (
    arith,
    nat_eqb_iff a a,
    currency_eqb_iff c c,
    balance_of-mark a c (set_balance a c (credited n (balance_of a c l)) l) a c,
    balance_of-set_balance a c (credited n (balance_of a c l)) l a c,
    add_u64-eq (available_of a c l) n,
  )

  total-deposit : (c' : Currency) → total c' after ≡ total c' l + of_currency c n c'
  unfolding Ledger.deposit
  total-deposit c' = ground (
    arith,
    total-mark a c (set_balance a c (credited n (balance_of a c l)) l) c',
    total-set_balance a c (credited n (balance_of a c l)) l c',
    add_u64-eq (available_of a c l) n,
  )

  available_of-deposit : (Ledger.deposit c a n l).0 ≡ available_of a c after
  unfolding Ledger.deposit
  available_of-deposit = ground (
    arith,
    nat_eqb_iff a a,
    currency_eqb_iff c c,
    balance_of-mark a c (set_balance a c (credited n (balance_of a c l)) l) a c,
    balance_of-set_balance a c (credited n (balance_of a c l)) l a c,
  )

-- A deposit that is accepted: the answer is what the account has available, it holds what it held and
-- the amount, that is within the ceiling, and no other total moves.
abbrev pub Accepts : AccountId → DepositRequest → Engine → ℕ → Engine → Type 0
Accepts a req e n e' =
    (n ≡ available_of a req.currency e'.ledger)
    × (worth_of a req.currency e'.ledger ≡ worth_of a req.currency e.ledger + req.amount)
    × (worth_of a req.currency e'.ledger ≤ e.limits.deposit_ceiling req.currency)
    × ((c : Currency)
        → total c e'.ledger ≡ total c e.ledger + of_currency req.currency req.amount c)

-- The two outcomes of a deposit: it is accepted, or it is refused and the engine stays.
abbrev pub Deposited : AccountId → DepositRequest → Engine → Result ℕ × Engine → Type 0
Deposited a req e (r, e') =
    ((n : ℕ) × (r ≡ ok n) × Accepts a req e n e')
    ⊎ ((e' ≡ e)
        × (((r ≡ err invalid_amount) × (u64_mod ≤ worth_of a req.currency e.ledger + req.amount))
            ⊎ ((r ≡ err deposit_limit_exceeded)
                × (e.limits.deposit_ceiling req.currency
                    < worth_of a req.currency e.ledger + req.amount))))

-- Where an account's holding fits a `u64`, a deposit is accepted within the ceiling: then the
-- holding and the total of the currency grow by the amount and no other total moves, and the answer
-- is what is available. Otherwise the sum overflows or is beyond the ceiling, the answer says which,
-- and the engine stays as it was.
pub deposit-Deposited :
    (a : AccountId) (req : DepositRequest) (e : Engine)
    → worth_of a req.currency e.ledger < u64_mod
    → Deposited a req e (deposit a req e)
unfolding deposit checked_add
deposit-Deposited a req e fits =
    let sum : ℕ = worth_of a req.currency e.ledger + req.amount in
    let read = held-worth a req.currency e.ledger fits in
    elim (Bool-cases (ltb sum u64_mod)) [
      | inr beyond ↦
          let refused : (err invalid_amount, e) ≡ deposit a req e = ground arith in
          subst (Deposited a req e) refused (inr (refl, inl (refl, ground arith)))
      | inl inside ↦ elim (Bool-cases (ltb (e.limits.deposit_ceiling req.currency) sum)) [
        | inl above ↦
            let refused : (err deposit_limit_exceeded, e) ≡ deposit a req e = ground arith in
            subst (Deposited a req e) refused (inr (refl, inr (refl, ground arith)))
        | inr within ↦
            let fine : sum < u64_mod = ground arith in
            let (n, l) = Ledger.deposit req.currency a req.amount e.ledger in
            let accepted : (ok n, record e { ledger = l }) ≡ deposit a req e = ground arith in
            let grown = worth_of-deposit a req.currency req.amount e.ledger fine in
            subst (Deposited a req e) accepted (
              inl (
                n,
                refl,
                (
                  available_of-deposit a req.currency req.amount e.ledger fine,
                  grown,
                  ground (arith, grown),
                  total-deposit a req.currency req.amount e.ledger fine,
                ),
              ))
      ]
    ]
