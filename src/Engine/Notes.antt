-- ===== src/Engine/Notes.antt =====
-- What the events of a command say of balances, before the marks are drained and by the drain.
use cex_matching_engine.Prelude.{
  ◌≡◌, refl, sym, ap, ◌∙◌, Bool, true, false, if◌then◌else◌, arith, some, none, Option,
  Option-cases, [], ◌∷◌, ◌++◌, List, nat_eq, pair_eq, pair_eqb_iff, inl, inr, map, subst,
}
use cex_matching_engine.Prelude.HashMap
use cex_matching_engine.Market.{AccountId, Currency, Pair, currency_eq}
use cex_matching_engine.Reject.{Result, ok, err}
use cex_matching_engine.Book.Types.{
  Trade, OrderRequest, Order, OrderUpdate, MatchResponse, LevelDelta,
}
use cex_matching_engine.Command.{
  Command, Event, BalanceChanged, trade, book_delta, balance_changed, order_accepted,
  order_cancelled, order_updated,
}
use cex_matching_engine.Ledger.{Ledger, Balance, balance_of}
use cex_matching_engine.Ledger.Balances.{same_entry}
use cex_matching_engine.Engine.State.{Engine}
use cex_matching_engine.Engine.Operations.{place_order, cancel_order, deposit}
use cex_matching_engine.Engine.Apply.{
  dispatch, Outcome, balance_event, balance_events, placed, place_events, cancel_events,
  update_event, delta_event,
}

abbrev balance_in : BalanceChanged → Balance
balance_in b = record { available = b.available; reserved = b.reserved }

-- What a list of events says of an entry: the last amounts for it, or what it was before.
abbrev pub noted : AccountId → Currency → List Event → Balance → Balance
noted a c [] old = old
noted a c (balance_changed b ∷ events) old =
    noted a c events (if same_entry b.account_id b.currency a c then balance_in b else old)
noted a c (_ ∷ events) old = noted a c events old

pub noted-append :
    (a : AccountId) (c : Currency) (xs ys : List Event) (old : Balance)
    → noted a c (xs ++ ys) old ≡ noted a c ys (noted a c xs old)
noted-append a c [] ys old = refl
noted-append a c (balance_changed b ∷ xs) ys old =
    noted-append a c xs ys (if same_entry b.account_id b.currency a c then balance_in b else old)
noted-append a c (trade t ∷ xs) ys old = noted-append a c xs ys old
noted-append a c (book_delta d ∷ xs) ys old = noted-append a c xs ys old
noted-append a c (order_accepted o ∷ xs) ys old = noted-append a c xs ys old
noted-append a c (order_cancelled o ∷ xs) ys old = noted-append a c xs ys old
noted-append a c (order_updated o ∷ xs) ys old = noted-append a c xs ys old

noted-trades :
    (a : AccountId) (c : Currency) (ts : List Trade) (old : Balance)
    → noted a c (map trade ts) old ≡ old
noted-trades a c [] old = refl
noted-trades a c (t ∷ ts) old = noted-trades a c ts old

noted-updates :
    (a : AccountId) (c : Currency) (pair : Pair) (us : List OrderUpdate) (old : Balance)
    → noted a c (map (update_event pair) us) old ≡ old
noted-updates a c pair [] old = refl
noted-updates a c pair (u ∷ us) old = noted-updates a c pair us old

noted-deltas :
    (a : AccountId) (c : Currency) (pair : Pair) (ds : List LevelDelta) (old : Balance)
    → noted a c (map (delta_event pair) ds) old ≡ old
noted-deltas a c pair [] old = refl
noted-deltas a c pair (d ∷ ds) old = noted-deltas a c pair ds old

noted-place_events :
    (a : AccountId) (c : Currency) (owner : AccountId) (req : OrderRequest) (res : MatchResponse)
    (old : Balance)
    → noted a c (place_events owner req res) old ≡ old
unfolding place_events
noted-place_events a c owner req res old =
    let updates = map (update_event req.pair) res.updates in
    let deltas = map (delta_event req.pair) res.book_deltas in
    noted-append a c (map trade res.trades) (updates ++ deltas) old
    ∙ ap (noted a c (updates ++ deltas)) (noted-trades a c res.trades old)
    ∙ noted-append a c updates deltas old
    ∙ ap (noted a c deltas) (noted-updates a c req.pair res.updates old)
    ∙ noted-deltas a c req.pair res.book_deltas old

-- The events of a command say nothing of balances before the marks are drained.
pub noted-dispatch :
    (a : AccountId) (c : Currency) (owner : AccountId) (command : Command) (e : Engine)
    (o : Outcome)
    → dispatch owner command e ≡ some o
    → (old : Balance) → noted a c o.1 old ≡ old
unfolding dispatch deposit placed cancel_events
noted-dispatch a c owner (Command.place req) e o h old = noted-placed (place_order owner req e) refl
  where
    noted-placed :
        (p : Option (Result MatchResponse × Engine))
        → place_order owner req e ≡ p
        → noted a c o.1 old ≡ old
    noted-placed none ep = let panic : none ≡ some o = ground arith in cc
    noted-placed (some (ok res, e')) ep =
        let same : place_events owner req res ≡ o.1 = ground arith in
        subst (λ events. noted a c events old ≡ old) same (noted-place_events a c owner req res old)
    noted-placed (some (err x, e')) ep =
        let same : [] ≡ o.1 = ground arith in subst (λ events. noted a c events old ≡ old) same refl
noted-dispatch a c owner (Command.cancel req) e o h old =
    noted-removed (cancel_order owner req e) refl
  where
    noted-removed :
        (p : Option ((Pair × Order × List LevelDelta) × Engine))
        → cancel_order owner req e ≡ p
        → noted a c o.1 old ≡ old
    noted-removed none ep =
        let same : [] ≡ o.1 = ground arith in subst (λ events. noted a c events old ≡ old) same refl
    noted-removed (some ((pair, order, deltas), e')) ep =
        let same : cancel_events req (pair, order, deltas) ≡ o.1 = ground arith in
        subst (λ events. noted a c events old ≡ old) same (noted-deltas a c pair deltas old)
noted-dispatch a c owner (Command.deposit req) e o h old =
    let same : [] ≡ o.1 = ground arith in subst (λ events. noted a c events old ≡ old) same refl
noted-dispatch a c owner (Command.withdraw req) e o h old =
    let same : [] ≡ o.1 = ground arith in subst (λ events. noted a c events old ≡ old) same refl
noted-dispatch a c owner (Command.list_pair p) e o h old =
    let same : [] ≡ o.1 = ground arith in subst (λ events. noted a c events old ≡ old) same refl
noted-dispatch a c owner (Command.delist_pair p) e o h old =
    let same : [] ≡ o.1 = ground arith in subst (λ events. noted a c events old ≡ old) same refl

balance_event_lem :
    (k : AccountId × Currency) (l : Ledger) (event : Event)
    → balance_event k l ≡ some event
    → event
      ≡ balance_changed (record {
        account_id = k.0;
        currency = k.1;
        available = (balance_of k.0 k.1 l).available;
        reserved = (balance_of k.0 k.1 l).reserved;
      })
unfolding balance_event balance_of HashMap.get_or
balance_event_lem k l event h = elim (Option-cases (HashMap.get k.0 l.balances)) [
  | inl absent ↦ let panic : balance_event k l ≡ none = ground arith in cc
  | inr (of_account, found) ↦ elim (Option-cases (HashMap.get k.1 of_account)) [
    | inl absent ↦ let panic : balance_event k l ≡ none = ground arith in cc
    | inr (b, there) ↦ ground arith
  ]
]

drain_choice :
    (here later : Bool) (there now old : Balance)
    → (here ≡ true → there ≡ now)
    → (if later then now else if here then there else old)
      ≡ (if if here then true else later then now else old)
drain_choice true true there now old h = refl
drain_choice true false there now old h = h refl
drain_choice false true there now old h = refl
drain_choice false false there now old h = refl

-- The drain of the marks says of every marked entry what it holds.
pub noted-balance_events :
    (a : AccountId) (c : Currency) (l : Ledger) (keys : List (AccountId × Currency))
    (events : List Event) (old : Balance)
    → balance_events keys l ≡ some events
    → noted a c events old ≡ (if HashMap.contains (a, c) keys then balance_of a c l else old)
unfolding balance_events HashMap.contains
noted-balance_events a c l [] events old h =
    let same : [] ≡ events = ground arith in
    subst (λ (es : List Event). noted a c es old ≡ old) same refl
noted-balance_events a c l (k ∷ keys) events old h = elim (Option-cases (balance_event k l)) [
  | inl absent ↦ let panic : balance_events (k ∷ keys) l ≡ none = ground arith in cc
  | inr (event, first) ↦ elim (Option-cases (balance_events keys l)) [
    | inl absent ↦ let panic : balance_events (k ∷ keys) l ≡ none = ground arith in cc
    | inr (others, later) ↦
        let same : event ∷ others ≡ events = ground arith in
        let here = same_entry k.0 k.1 a c in
        let there = balance_of k.0 k.1 l in
        subst
          (λ (es : List Event). noted a c es old ≡ (
            if if here then true else HashMap.contains (a, c) keys then balance_of a c l else old))
          same
          (ap (λ (e : Event). noted a c (e ∷ others) old) (balance_event_lem k l event first)
            ∙ noted-balance_events a c l keys others (if here then there else old) later
            ∙ drain_choice here (HashMap.contains (a, c) keys) there (balance_of a c l) old (λ e.
              ap (λ (x : AccountId × Currency). balance_of x.0 x.1 l)
                (sym ((pair_eqb_iff (a, c) k).0 e))))
  ]
]
