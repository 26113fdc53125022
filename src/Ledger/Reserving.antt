-- ===== src/Ledger/Reserving.antt =====
-- `reserve` and `release`.
use cex_matching_engine.Prelude.{
  refl, ℕ, ◌+◌, ◌≤◌, ◌<◌, ◌≡◌, arith, u64_mod, add_u64-eq, sub_u64-eq, nat_eqb_iff, ◌⊎◌, Bool-cases,
  ltb, inl, subst, inr,
}
use cex_matching_engine.Market.{AccountId, Currency, currency_eqb_iff}
use cex_matching_engine.Ledger.{
  Ledger, balance_of, set_balance, mark, set_aside, handed_back, Result, reserve, release, ok, err,
  insufficient_funds, invalid_amount, ltb,
}
use cex_matching_engine.Ledger.Balances.{
  available_of, reserved_of, share, balance_of-set_balance, balance_of-mark,
}
use cex_matching_engine.Ledger.Total.{total, total-set_balance, total-mark, worth-le-total}
use cex_matching_engine.Reject.{Result}

-- An amount moves from the available part of an entry to its reserve, and nothing else does.
abbrev pub Moves : AccountId → Currency → ℕ → Ledger → Ledger → Type 0
Moves a c n l l' =
    (a' : AccountId) (c' : Currency)
    → (available_of a' c' l' + share a c n a' c' ≡ available_of a' c' l)
      × (reserved_of a' c' l' ≡ reserved_of a' c' l + share a c n a' c')
      × (total c' l' ≡ total c' l)

module _ (a : AccountId) (c : Currency) (n : ℕ) (l : Ledger) (bounded : total c l < u64_mod) where
  aside-Moves :
      n ≤ available_of a c l
      → Moves a c n l (mark a c (set_balance a c (set_aside n (balance_of a c l)) l))
  aside-Moves h a' c' = ground (
    arith,
    nat_eqb_iff a' a,
    currency_eqb_iff c' c,
    balance_of-mark a c (set_balance a c (set_aside n (balance_of a c l)) l) a' c',
    balance_of-set_balance a c (set_aside n (balance_of a c l)) l a' c',
    total-mark a c (set_balance a c (set_aside n (balance_of a c l)) l) c',
    total-set_balance a c (set_aside n (balance_of a c l)) l c',
    worth-le-total a c l,
    sub_u64-eq (available_of a c l) n,
    add_u64-eq (reserved_of a c l) n,
  )

  back-Moves :
      n ≤ reserved_of a c l
      → Moves a c n (mark a c (set_balance a c (handed_back n (balance_of a c l)) l)) l
  back-Moves h a' c' = ground (
    arith,
    nat_eqb_iff a' a,
    currency_eqb_iff c' c,
    balance_of-mark a c (set_balance a c (handed_back n (balance_of a c l)) l) a' c',
    balance_of-set_balance a c (handed_back n (balance_of a c l)) l a' c',
    total-mark a c (set_balance a c (handed_back n (balance_of a c l)) l) c',
    total-set_balance a c (handed_back n (balance_of a c l)) l c',
    worth-le-total a c l,
    sub_u64-eq (reserved_of a c l) n,
    add_u64-eq (available_of a c l) n,
  )

  -- The entry that an operation makes before it fails reads as it did.
  made-Moves : Moves a c 0 l (set_balance a c (balance_of a c l) l)
  made-Moves a' c' = ground (
    arith,
    nat_eqb_iff a' a,
    currency_eqb_iff c' c,
    balance_of-set_balance a c (balance_of a c l) l a' c',
    total-set_balance a c (balance_of a c l) l c',
  )

  abbrev Reserved : Result (Unit {0}) × Ledger → Type 0
  Reserved (r, l') =
      ((r ≡ ok tt) × (n ≤ available_of a c l) × Moves a c n l l')
      ⊎ ((r ≡ err insufficient_funds) × (available_of a c l < n) × Moves a c 0 l l')

  abbrev Released : Result (Unit {0}) × Ledger → Type 0
  Released (r, l') =
      ((r ≡ ok tt) × (n ≤ reserved_of a c l) × Moves a c n l' l)
      ⊎ ((r ≡ err invalid_amount) × (reserved_of a c l < n) × Moves a c 0 l l')

  -- Where the total of the currency fits a `u64`, `reserve` moves the amount from the available part
  -- of the entry to its reserve and touches no other entry and no total, where that much is
  -- available; otherwise it is refused for lack of funds and no balance changes.
  reserve-Moves :
      let (r, l') = reserve a c n l in
      ((r ≡ ok tt) × (n ≤ available_of a c l) × Moves a c n l l')
      ⊎ ((r ≡ err insufficient_funds) × (available_of a c l < n) × Moves a c 0 l l')
  unfolding reserve
  reserve-Moves = elim (Bool-cases (ltb (available_of a c l) n)) [
    | inl short ↦
        let refused : (err insufficient_funds, set_balance a c (balance_of a c l) l)
            ≡ reserve a c n l =
          ground arith in
        subst Reserved refused (inr (refl, ground arith, made-Moves))
    | inr there ↦
        let covered : n ≤ available_of a c l = ground arith in
        let done : (ok tt, mark a c (set_balance a c (set_aside n (balance_of a c l)) l))
            ≡ reserve a c n l =
          ground arith in
        subst Reserved done (inl (refl, covered, aside-Moves covered))
  ]

  -- Where the total of the currency fits a `u64`, `release` moves the amount from the reserve of the
  -- entry to its available part and touches no other entry and no total, where that much is
  -- reserved; otherwise it is refused as an invalid amount and no balance changes.
  release-Moves :
      let (r, l') = release a c n l in
      ((r ≡ ok tt) × (n ≤ reserved_of a c l) × Moves a c n l' l)
      ⊎ ((r ≡ err invalid_amount) × (reserved_of a c l < n) × Moves a c 0 l l')
  unfolding release
  release-Moves = elim (Bool-cases (ltb (reserved_of a c l) n)) [
    | inl short ↦
        let refused : (err invalid_amount, set_balance a c (balance_of a c l) l) ≡ release a c n l =
          ground arith in
        subst Released refused (inr (refl, ground arith, made-Moves))
    | inr there ↦
        let covered : n ≤ reserved_of a c l = ground arith in
        let done : (ok tt, mark a c (set_balance a c (handed_back n (balance_of a c l)) l))
            ≡ release a c n l =
          ground arith in
        subst Released done (inl (refl, covered, back-Moves covered))
  ]
