-- ===== src/Engine/Settling.antt =====
-- Settling all the trades of a command.
use cex_matching_engine.Prelude.{
  ℕ, ◌+◌, ◌*◌, ◌≤◌, ◌<◌, ◌≡◌, ◌≢◌, refl, List, [], ◌∷◌, arith, sum_of, u64_mod, some, nat_eqb_iff,
  ◌∙◌,
}
use cex_matching_engine.Market.{AccountId, Currency, Pair, currency_eqb_iff}
use cex_matching_engine.Book.Types.{Trade}
use cex_matching_engine.Ledger.{Ledger, settle}
use cex_matching_engine.Ledger.Balances.{available_of, reserved_of, share}
use cex_matching_engine.Ledger.Total.{total}
use cex_matching_engine.Ledger.Settlement.{Covers, pays, receives, buyer, seller, settle-pays}
use cex_matching_engine.Engine.Operations.{settle_all}

-- What a list of trades takes from an entry's reserve, and adds to its available part.
abbrev pub all_pays : Pair → List Trade → AccountId → Currency → ℕ
all_pays pair ts a c = sum_of (λ t. pays pair t a c) ts

abbrev pub all_receives : Pair → List Trade → AccountId → Currency → ℕ
all_receives pair ts a c = sum_of (λ t. receives pair t a c) ts

share_self : (a : AccountId) (c : Currency) (n : ℕ) → share a c n a c ≡ n
share_self a c n = ground (arith, nat_eqb_iff a a, currency_eqb_iff c c)

-- Every reserve holds what the trades take from it.
pub record CoversAll (pair : Pair) (ts : List Trade) (l : Ledger) : Type 0 where
  pub distinct : pair.base ≢ pair.quote
  pub covered : (a : AccountId) (c : Currency) → all_pays pair ts a c ≤ reserved_of a c l
  pub bounded : (c : Currency) → total c l < u64_mod

first_Covers :
    (pair : Pair) (t : Trade) (ts : List Trade) (l : Ledger)
    → CoversAll pair (t ∷ ts) l
    → Covers pair t l
first_Covers pair t ts l v = record {
  distinct = v.distinct;
  quote_covered =
      omega
        (arith, v.covered (buyer t) pair.quote, share_self (buyer t) pair.quote (t.price * t.qty));
  base_covered =
      omega (arith, v.covered (seller t) pair.base, share_self (seller t) pair.base t.qty);
  bounded = v.bounded;
}

settle_all-cons :
    (pair : Pair) (t : Trade) (ts : List Trade) (l l₁ : Ledger)
    → settle pair t l ≡ some l₁
    → settle_all pair (t ∷ ts) l ≡ settle_all pair ts l₁
unfolding settle_all
settle_all-cons pair t ts l l₁ e = rw (e, settle_all)

-- Where every reserve holds what the trades take from it together, the pair has two currencies, and
-- no total is out of range, settling them in turn does not panic, every reserve falls by what the trades take from it, every
-- available part rises by what they add to it, and no total changes.
pub settle_all-pays :
    (pair : Pair) (ts : List Trade) (l : Ledger)
    → CoversAll pair ts l
    → (l' : Ledger) × (settle_all pair ts l ≡ some l')
      × ((a : AccountId) (c : Currency)
          → (reserved_of a c l' + all_pays pair ts a c ≡ reserved_of a c l)
            × (available_of a c l' ≡ available_of a c l + all_receives pair ts a c)
            × (total c l' ≡ total c l))
unfolding settle_all
settle_all-pays pair [] l v = (l, refl, λ a c. (omega arith, omega arith, refl))
settle_all-pays pair (t ∷ ts) l v =
    let (l₁, e₁, h₁) = settle-pays pair t l (first_Covers pair t ts l v) in
    let rest : CoversAll pair ts l₁ = record {
      distinct = v.distinct;
      covered = λ a c. omega (arith, v.covered a c, (h₁ a c).0);
      bounded = λ c. omega (arith, v.bounded c, (h₁ 0 c).2);
    } in
    let (l₂, e₂, h₂) = settle_all-pays pair ts l₁ rest in
    (
      l₂,
      settle_all-cons pair t ts l l₁ e₁ ∙ e₂,
      λ a c. (
        omega (arith, (h₁ a c).0, (h₂ a c).0),
        omega (arith, (h₁ a c).1, (h₂ a c).1),
        (h₂ a c).2 ∙ (h₁ a c).2,
      ),
    )
