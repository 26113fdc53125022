-- ===== src/Ledger/Writes.antt =====
-- The four writes of `settle`, for a buying and for a selling taker: what they come to where the
-- reserves cover the trade. No write wraps.
use cex_matching_engine.Prelude.{
  ℕ, ◌+◌, ◌≤◌, ◌<◌, ◌≡◌, ◌≢◌, inl, inr, arith, nat_eqb, nat_eqb_iff, u64_mod, Bool-cases,
}
use cex_matching_engine.Market.{AccountId, Currency, currency_eqb_iff}
use cex_matching_engine.Ledger.{Ledger, credit, debit}
use cex_matching_engine.Ledger.Balances.{
  share, available_of, reserved_of, available_of-credit, reserved_of-credit, available_of-debit,
  reserved_of-debit,
}
use cex_matching_engine.Ledger.Total.{
  total, total-credit, total-debit, of_currency, worth-le-total, two_worths-le-total,
}

-- Room for what an account receives, beside what it has.
room :
    (c : Currency) (payer payee : AccountId) (amount : ℕ) (l : Ledger)
    → amount ≤ reserved_of payer c l
    → total c l < u64_mod
    → available_of payee c l + amount < u64_mod
room c payer payee amount l cover bound = elim (Bool-cases (nat_eqb payer payee)) [
  | inl same ↦ ground (arith, nat_eqb_iff payer payee, worth-le-total payee c l)
  | inr other ↦ ground (arith, nat_eqb_iff payer payee, two_worths-le-total payer payee c l)
]

-- The four writes of the two branches. In a self-trade `t` and `m` are one account.
module _ (t m : AccountId) (base quote : Currency) (cost qty : ℕ) (l : Ledger)
    (distinct : base ≢ quote) (bounded : (c : Currency) → total c l < u64_mod) where
  abbrev pub l₁ : Ledger
  l₁ = debit t quote cost l

  abbrev pub l₂ : Ledger
  l₂ = credit t base qty l₁

  abbrev pub l₃ : Ledger
  l₃ = credit m quote cost l₂

  abbrev pub k₁ : Ledger
  k₁ = credit t quote cost l

  abbrev pub k₂ : Ledger
  k₂ = debit t base qty k₁

  abbrev pub k₃ : Ledger
  k₃ = debit m quote cost k₂

  -- no reserve is out of range
  range : (a : AccountId) (c : Currency) → reserved_of a c l < u64_mod
  range a c = let b = bounded c in omega (arith, worth-le-total a c l)

  -- Each write finds the entry that it changes as it was at first.
  module _ (pq : cost ≤ reserved_of t quote l) (pb : qty ≤ reserved_of m base l) where
    bid_t_room : available_of t base l₁ + qty < u64_mod
    bid_t_room =
        omega
          (arith, room base m t qty l pb (bounded base), available_of-debit t quote cost l t base)

    bid_m_room : available_of m quote l₂ + cost < u64_mod
    bid_m_room = ground (
      arith,
      room quote t m cost l pq (bounded quote),
      available_of-credit t base qty l₁ m quote bid_t_room,
      available_of-debit t quote cost l m quote,
      currency_eqb_iff quote base,
      distinct,
    )

    bid_m_reserve : reserved_of m base l₃ ≡ reserved_of m base l
    bid_m_reserve = ground (
      arith,
      reserved_of-credit m quote cost l₂ m base,
      reserved_of-credit t base qty l₁ m base,
      reserved_of-debit t quote cost l m base pq (range t quote),
      currency_eqb_iff base quote,
      distinct,
    )

  module _ (pq : cost ≤ reserved_of m quote l) (pb : qty ≤ reserved_of t base l) where
    ask_t_room : available_of t quote l + cost < u64_mod
    ask_t_room = room quote m t cost l pq (bounded quote)

    ask_t_reserve : reserved_of t base k₁ ≡ reserved_of t base l
    ask_t_reserve = reserved_of-credit t quote cost l t base

    ask_t_cover : (qty ≤ reserved_of t base k₁) × (reserved_of t base k₁ < u64_mod)
    ask_t_cover = rw ask_t_reserve (pb, range t base)

    ask_m_reserve : reserved_of m quote k₂ ≡ reserved_of m quote l
    ask_m_reserve = ground (
      arith,
      reserved_of-credit t quote cost l m quote,
      reserved_of-debit t base qty k₁ m quote ask_t_cover.0 ask_t_cover.1,
      currency_eqb_iff quote base,
      distinct,
    )

    ask_m_room : available_of m base k₃ + qty < u64_mod
    ask_m_room = ground (
      arith,
      room base t m qty l pb (bounded base),
      available_of-credit t quote cost l m base ask_t_room,
      available_of-debit t base qty k₁ m base,
      available_of-debit m quote cost k₂ m base,
      currency_eqb_iff base quote,
      distinct,
    )

  -- What the four writes of a buying taker come to, at every entry and over all accounts.
  module _ (pq : cost ≤ reserved_of t quote l) (pb : qty ≤ reserved_of m base l) (a : AccountId)
      (c : Currency) where
    pub available_of-bid :
        available_of a c (debit m base qty l₃)
        ≡ available_of a c l + share m quote cost a c + share t base qty a c
    available_of-bid = omega (
      arith,
      available_of-debit m base qty l₃ a c,
      available_of-credit m quote cost l₂ a c (bid_m_room pq pb),
      available_of-credit t base qty l₁ a c (bid_t_room pq pb),
      available_of-debit t quote cost l a c,
    )

    pub reserved_of-bid :
        reserved_of a c (debit m base qty l₃) + share t quote cost a c + share m base qty a c
        ≡ reserved_of a c l
    reserved_of-bid =
        let same = bid_m_reserve pq pb in
        let within = range m base in
        let last : reserved_of a c (debit m base qty l₃) + share m base qty a c
            ≡ reserved_of a c l₃ =
          reserved_of-debit m base qty l₃ a c (omega arith) (omega arith) in
        omega (
          arith,
          reserved_of-credit m quote cost l₂ a c,
          reserved_of-credit t base qty l₁ a c,
          reserved_of-debit t quote cost l a c pq (range t quote),
        )

    pub total-bid : total c (debit m base qty l₃) ≡ total c l
    total-bid =
        let same = bid_m_reserve pq pb in
        let within = range m base in
        let last : total c (debit m base qty l₃) + of_currency base qty c ≡ total c l₃ =
          total-debit m base qty l₃ c (omega arith) (omega arith) in
        omega (
          arith,
          total-credit m quote cost l₂ c (bid_m_room pq pb),
          total-credit t base qty l₁ c (bid_t_room pq pb),
          total-debit t quote cost l c pq (range t quote),
        )

  -- The same for a selling taker.
  module _ (pq : cost ≤ reserved_of m quote l) (pb : qty ≤ reserved_of t base l) (a : AccountId)
      (c : Currency) where
    pub available_of-ask :
        available_of a c (credit m base qty k₃)
        ≡ available_of a c l + share t quote cost a c + share m base qty a c
    available_of-ask = omega (
      arith,
      available_of-credit m base qty k₃ a c (ask_m_room pq pb),
      available_of-debit m quote cost k₂ a c,
      available_of-debit t base qty k₁ a c,
      available_of-credit t quote cost l a c (ask_t_room pq pb),
    )

    pub reserved_of-ask :
        reserved_of a c (credit m base qty k₃) + share m quote cost a c + share t base qty a c
        ≡ reserved_of a c l
    reserved_of-ask =
        let same = ask_m_reserve pq pb in
        let within = range m quote in
        let third : reserved_of a c k₃ + share m quote cost a c ≡ reserved_of a c k₂ =
          reserved_of-debit m quote cost k₂ a c (omega arith) (omega arith) in
        omega (
          arith,
          reserved_of-credit m base qty k₃ a c,
          reserved_of-debit t base qty k₁ a c (ask_t_cover pq pb).0 (ask_t_cover pq pb).1,
          reserved_of-credit t quote cost l a c,
        )

    pub total-ask : total c (credit m base qty k₃) ≡ total c l
    total-ask =
        let same = ask_m_reserve pq pb in
        let within = range m quote in
        let third : total c k₃ + of_currency quote cost c ≡ total c k₂ =
          total-debit m quote cost k₂ c (omega arith) (omega arith) in
        omega (
          arith,
          total-credit m base qty k₃ c (ask_m_room pq pb),
          total-debit t base qty k₁ c (ask_t_cover pq pb).0 (ask_t_cover pq pb).1,
          total-credit t quote cost l c (ask_t_room pq pb),
        )
