-- ===== src/Ledger/Marks.antt =====
-- Every entry of the ledger that an operation changes is marked.
use cex_matching_engine.Prelude.{
  ℕ, ◌≡◌, refl, sym, subst, ap, ◌∙◌, Bool, true, false, if◌then◌else◌, arith, some, none,
  Option-cases, nat_eqb_iff, nat_eq, pair_eq, Bool-cases, inl, inr, ltb, checked_mul,
}
use cex_matching_engine.Prelude.HashMap
use cex_matching_engine.Market.{AccountId, Currency, Pair, currency_eqb_iff, currency_eq}
use cex_matching_engine.Book.Types.{Trade, Side, bid, ask}
use cex_matching_engine.Ledger.{
  Balance, Ledger, balance_of, set_balance, mark, credit, debit, credited, debited, deposit,
  withdraw, reserve, release, withdrawn, set_aside, handed_back, settle, move_funds, mark_trade,
}
use cex_matching_engine.Ledger.Balances.{same_entry, balance_of-set_balance, balance_of-mark}

-- The marks only grow, and an entry that is not marked after is as it was before.
abbrev pub Marked : Ledger → Ledger → Type 0
Marked l l' =
    (a : AccountId) (c : Currency)
    → HashMap.contains (a, c) l'.dirty ≡ false
    → (HashMap.contains (a, c) l.dirty ≡ false) × (balance_of a c l' ≡ balance_of a c l)

pub same-Marked : (l : Ledger) → Marked l l
same-Marked l a c h = (h, refl)

pub then-Marked : (l l' l'' : Ledger) → Marked l l' → Marked l' l'' → Marked l l''
then-Marked l l' l'' first second a c h =
    let (clean', same') = second a c h in
    let (clean, same) = first a c clean' in (clean, same' ∙ same)

-- A write that changes nothing.
kept-Marked :
    (a : AccountId) (c : Currency) (l : Ledger) → Marked l (set_balance a c (balance_of a c l) l)
unfolding set_balance
kept-Marked a c l a' c' h = (
  h,
  balance_of-set_balance a c (balance_of a c l) l a' c'
      ∙ ground (arith, nat_eqb_iff a' a, currency_eqb_iff c' c),
)

with_mark : (b c : Bool) → (if b then true else c) ≡ false → (b ≡ false) × (c ≡ false)
with_mark true c h = cc
with_mark false c h = (refl, h)

mark_lem :
    (a : AccountId) (c : Currency) (l : Ledger) (a' : AccountId) (c' : Currency)
    → HashMap.contains (a', c') (mark a c l).dirty ≡ false
    → (same_entry a c a' c' ≡ false) × (HashMap.contains (a', c') l.dirty ≡ false)
unfolding mark
mark_lem a c l a' c' h =
    with_mark (same_entry a c a' c') (HashMap.contains (a', c') l.dirty)
      (sym (HashMap.contains-with_elem (a', c') (a, c) l.dirty) ∙ h)

other_entry :
    (a : AccountId) (c : Currency) (b : Balance) (l : Ledger) (a' : AccountId) (c' : Currency)
    → same_entry a c a' c' ≡ false
    → balance_of a' c' (set_balance a c b l) ≡ balance_of a' c' l
other_entry a c b l a' c' h =
    balance_of-set_balance a c b l a' c' ∙ ap (λ s. if s then b else balance_of a' c' l) h

written-Marked :
    (a : AccountId) (c : Currency) (b : Balance) (l : Ledger)
    → Marked l (mark a c (set_balance a c b l))
unfolding mark set_balance balance_of
written-Marked a c b l a' c' h =
    let (other, clean) = mark_lem a c (set_balance a c b l) a' c' h in
    (clean, other_entry a c b l a' c' other)

module _ (a : AccountId) (c : Currency) (n : ℕ) (l : Ledger) where
  pub deposit-Marked : Marked l (deposit c a n l).1
  unfolding deposit
  deposit-Marked = written-Marked a c (credited n (balance_of a c l)) l

  pub withdraw-Marked : Marked l (withdraw a c n l).1
  unfolding withdraw
  withdraw-Marked = elim (Bool-cases (ltb (balance_of a c l).available n)) [
    | inl short ↦ rw short (kept-Marked a c l)
    | inr enough ↦ rw enough (written-Marked a c (withdrawn n (balance_of a c l)) l)
  ]

  pub reserve-Marked : Marked l (reserve a c n l).1
  unfolding reserve
  reserve-Marked = elim (Bool-cases (ltb (balance_of a c l).available n)) [
    | inl short ↦ rw short (kept-Marked a c l)
    | inr enough ↦ rw enough (written-Marked a c (set_aside n (balance_of a c l)) l)
  ]

  pub release-Marked : Marked l (release a c n l).1
  unfolding release
  release-Marked = elim (Bool-cases (ltb (balance_of a c l).reserved n)) [
    | inl short ↦ rw short (kept-Marked a c l)
    | inr enough ↦ rw enough (written-Marked a c (handed_back n (balance_of a c l)) l)
  ]

  credit_other :
      (a' : AccountId) (c' : Currency)
      → same_entry a c a' c' ≡ false
      → balance_of a' c' (credit a c n l) ≡ balance_of a' c' l
  unfolding credit
  credit_other a' c' = other_entry a c (credited n (balance_of a c l)) l a' c'

  debit_other :
      (a' : AccountId) (c' : Currency)
      → same_entry a c a' c' ≡ false
      → balance_of a' c' (debit a c n l) ≡ balance_of a' c' l
  unfolding debit
  debit_other a' c' = other_entry a c (debited n (balance_of a c l)) l a' c'

-- An entry that is none of the four of a trade.
record IsApart (pair : Pair) (t : Trade) (a : AccountId) (c : Currency) : Type 0 where
  taker_quote : same_entry t.taker_account pair.quote a c ≡ false
  taker_base : same_entry t.taker_account pair.base a c ≡ false
  maker_quote : same_entry t.maker_account pair.quote a c ≡ false
  maker_base : same_entry t.maker_account pair.base a c ≡ false

move_funds_other :
    (pair : Pair) (t : Trade) (s : Side) (cost : ℕ) (l : Ledger) (a : AccountId) (c : Currency)
    → t.taker_side ≡ s
    → IsApart pair t a c
    → balance_of a c (move_funds pair t cost l) ≡ balance_of a c l
unfolding move_funds
move_funds_other pair t bid cost l a c e h =
    let l1 = debit t.taker_account pair.quote cost l in
    let l2 = credit t.taker_account pair.base t.qty l1 in
    let l3 = credit t.maker_account pair.quote cost l2 in
    let same : move_funds pair t cost l ≡ debit t.maker_account pair.base t.qty l3 = ground arith in
    ap (balance_of a c) same
    ∙ debit_other t.maker_account pair.base t.qty l3 a c h.maker_base
    ∙ credit_other t.maker_account pair.quote cost l2 a c h.maker_quote
    ∙ credit_other t.taker_account pair.base t.qty l1 a c h.taker_base
    ∙ debit_other t.taker_account pair.quote cost l a c h.taker_quote
move_funds_other pair t ask cost l a c e h =
    let l1 = credit t.taker_account pair.quote cost l in
    let l2 = debit t.taker_account pair.base t.qty l1 in
    let l3 = debit t.maker_account pair.quote cost l2 in
    let same : move_funds pair t cost l ≡ credit t.maker_account pair.base t.qty l3 =
      ground arith in
    ap (balance_of a c) same
    ∙ credit_other t.maker_account pair.base t.qty l3 a c h.maker_base
    ∙ debit_other t.maker_account pair.quote cost l2 a c h.maker_quote
    ∙ debit_other t.taker_account pair.base t.qty l1 a c h.taker_base
    ∙ credit_other t.taker_account pair.quote cost l a c h.taker_quote

move_funds-dirty :
    (pair : Pair) (t : Trade) (s : Side) (cost : ℕ) (l : Ledger)
    → t.taker_side ≡ s
    → (move_funds pair t cost l).dirty ≡ l.dirty
unfolding move_funds credit debit set_balance
move_funds-dirty pair t bid cost l e = ground arith
move_funds-dirty pair t ask cost l e = ground arith

moved-Marked :
    (pair : Pair) (t : Trade) (cost : ℕ) (l : Ledger)
    → Marked l (mark_trade pair t (move_funds pair t cost l))
unfolding mark_trade
moved-Marked pair t cost l a c h =
    let l0 = move_funds pair t cost l in
    let l1 = mark t.taker_account pair.quote l0 in
    let l2 = mark t.taker_account pair.base l1 in
    let l3 = mark t.maker_account pair.quote l2 in
    let (maker_base, h3) = mark_lem t.maker_account pair.base l3 a c h in
    let (maker_quote, h2) = mark_lem t.maker_account pair.quote l2 a c h3 in
    let (taker_base, h1) = mark_lem t.taker_account pair.base l1 a c h2 in
    let (taker_quote, h0) = mark_lem t.taker_account pair.quote l0 a c h1 in
    let apart : IsApart pair t a c = record {
      taker_quote = taker_quote;
      taker_base = taker_base;
      maker_quote = maker_quote;
      maker_base = maker_base;
    } in
    (
      ap (λ dirty. HashMap.contains (a, c) dirty)
            (sym (move_funds-dirty pair t t.taker_side cost l refl))
          ∙ h0,
      balance_of-mark t.maker_account pair.base l3 a c
          ∙ balance_of-mark t.maker_account pair.quote l2 a c
          ∙ balance_of-mark t.taker_account pair.base l1 a c
          ∙ balance_of-mark t.taker_account pair.quote l0 a c
          ∙ move_funds_other pair t t.taker_side cost l a c refl apart,
    )

pub settle-Marked :
    (pair : Pair) (t : Trade) (l l' : Ledger) → settle pair t l ≡ some l' → Marked l l'
unfolding settle
settle-Marked pair t l l' e = elim (Option-cases (checked_mul t.price t.qty)) [
  | inl overflow ↦ let no : settle pair t l ≡ none = ground arith in cc
  | inr (cost, fits) ↦
      let same : mark_trade pair t (move_funds pair t cost l) ≡ l' = ground arith in
      subst (Marked l) same (moved-Marked pair t cost l)
]
