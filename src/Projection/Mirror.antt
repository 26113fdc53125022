-- ===== src/Projection/Mirror.antt =====
-- The projection shows the engine's books.
use cex_matching_engine.Prelude.{
  ℕ, nat_eq, ◌≡◌, ◌≢◌, refl, sym, ap, ◌∙◌, arith, none, some, [], ◌∷◌, ◌++◌, List, Option, subst,
  Option-cases, Bool-cases, inl, inr, All,
}
use cex_matching_engine.Prelude.HashMap
use cex_matching_engine.Prelude.BTreeMap
use cex_matching_engine.Market.{AccountId, Currency, Pair, market_pair_eq, currency_eq}
use cex_matching_engine.Book.Types.{Side, bid, ask}
use cex_matching_engine.Book.Levels.{qty_at, levels_of}
use cex_matching_engine.Book.Reports.{IsSettled}
use cex_matching_engine.Command.{
  Command, CommandResponse, EventBatch, Event, duplicate, balance_changed,
}
use cex_matching_engine.Ledger.{Ledger, take_dirty}
use cex_matching_engine.Engine.State.{Engine, new_engine, insert_key, dedup_window}
use cex_matching_engine.Engine.Apply.{
  apply, run_command, dispatch, emit, stamp, Outcome, balance_event, balance_events,
}
use cex_matching_engine.Engine.Books.{AllBooks, Books}
use cex_matching_engine.Engine.Markets.{apply-Keeps}
use cex_matching_engine.Projection.{BookState, apply_batch, new_store}
use cex_matching_engine.Projection.Levels.{shown, reported, shown-apply_events}
use cex_matching_engine.Projection.Events.{Says, Silent, quantity, append-Says}
use cex_matching_engine.Projection.Outcomes.{IsSettled-IsKept, unsure, SaysOf, dispatch-Says}

-- The projection shows the quantity of the engine at every level of every market.
abbrev pub Mirrors : Books → BookState → Type 0
Mirrors books s =
    (pair : Pair) (side : Side) (price : ℕ)
    → shown pair side price s.books ≡ quantity pair side price books

-- The projection after the batch of a command, if any.
abbrev pub deliver : Option EventBatch → BookState → BookState
deliver none s = s
deliver (some batch) s = apply_batch batch s

balance_event-Silent :
    (k : AccountId × Currency) (l : Ledger) (event : Event)
    → balance_event k l ≡ some event
    → Silent event
unfolding balance_event
balance_event-Silent k l event h = elim (Option-cases (HashMap.get k.0 l.balances)) [
  | inl absent ↦ let no : balance_event k l ≡ none = ground arith in cc
  | inr (of_account, found) ↦ elim (Option-cases (HashMap.get k.1 of_account)) [
    | inl absent ↦ let no : balance_event k l ≡ none = ground arith in cc
    | inr (b, there) ↦
        let same : balance_changed (record {
          account_id = k.0;
          currency = k.1;
          available = b.available;
          reserved = b.reserved;
        })
            ≡ event =
          ground arith in
        subst Silent same tt
  ]
]

balance_events-Silent :
    (keys : List (AccountId × Currency)) (l : Ledger) (events : List Event)
    → balance_events keys l ≡ some events
    → All Silent events
unfolding balance_events
balance_events-Silent [] l events h =
    let same : [] ≡ events = ground arith in subst (All Silent) same tt
balance_events-Silent (k ∷ keys) l events h = elim (Option-cases (balance_event k l)) [
  | inl panic ↦ let no : balance_events (k ∷ keys) l ≡ none = ground arith in cc
  | inr (event, first) ↦ elim (Option-cases (balance_events keys l)) [
    | inl panic ↦ let no : balance_events (k ∷ keys) l ≡ none = ground arith in cc
    | inr (others, later) ↦
        let same : event ∷ others ≡ events = ground arith in
        subst (All Silent) same
          (balance_event-Silent k l event first, balance_events-Silent keys l others later)
  ]
]

stamp-Mirrors :
    (response : CommandResponse) (events : List Event) (e : Engine) (old : Books) (s : BookState)
    → Says old events e.books
    → Mirrors old s
    → Mirrors (stamp response events e).1.books (deliver (stamp response events e).0.1 s)
unfolding stamp apply_batch
stamp-Mirrors response [] e old s says h pair side price =
    h pair side price ∙ sym (says pair side price)
stamp-Mirrors response (event ∷ events) e old s says h pair side price =
    shown-apply_events pair side price (event ∷ events) s.books
    ∙ ap (λ q. reported pair side price q (event ∷ events)) (h pair side price)
    ∙ sym (says pair side price)

stamp-response :
    (response : CommandResponse) (events : List Event) (e : Engine)
    → (stamp response events e).0.0 ≡ response
unfolding stamp
stamp-response response [] e = refl
stamp-response response (event ∷ events) e = refl

abbrev Answer : Type 0
Answer = (CommandResponse × Option EventBatch) × Engine

emit-Mirrors :
    (o : Outcome) (c : Option (List Event)) (r : Answer) (e : Engine) (s : BookState)
    → balance_events (take_dirty o.2.ledger).0 (take_dirty o.2.ledger).1 ≡ c
    → emit o ≡ some r
    → SaysOf e o
    → r.0.0 ≢ unsure
    → Mirrors e.books s
    → Mirrors r.1.books (deliver r.0.1 s)
unfolding emit
emit-Mirrors (response, events, e1) none r e s ec h says sure m =
    let no : emit (response, events, e1) ≡ none = ground arith in cc
emit-Mirrors (response, events, e1) (some changed) r e s ec h says sure m =
    let drained : Engine = record e1 { ledger = (take_dirty e1.ledger).1 } in
    let same : stamp response (events ++ changed) drained ≡ r = ground arith in
    let quiet =
      balance_events-Silent (take_dirty e1.ledger).0 (take_dirty e1.ledger).1 changed ec in
    subst (λ (x : Answer). Mirrors x.1.books (deliver x.0.1 s)) same
      (stamp-Mirrors response (events ++ changed) drained e.books s
        (append-Says events changed e.books e1.books quiet (
          says (λ e. sure (
            sym (ap (λ (x : Answer). x.0.0) same)
            ∙ stamp-response response (events ++ changed) drained
            ∙ e))))
        m)

run_command-Mirrors :
    (a : AccountId) (c : Command) (e : Engine) (o : Option Outcome) (r : Answer) (s : BookState)
    → dispatch a c e ≡ o
    → run_command a c e ≡ some r
    → AllBooks IsSettled e.books
    → r.0.0 ≢ unsure
    → Mirrors e.books s
    → Mirrors r.1.books (deliver r.0.1 s)
unfolding run_command
run_command-Mirrors a c e none r s eo h v sure m =
    let no : run_command a c e ≡ none = ground arith in cc
run_command-Mirrors a c e (some o) r s eo h v sure m =
    emit-Mirrors o (balance_events (take_dirty o.2.ledger).0 (take_dirty o.2.ledger).1) r e s refl
      (ground arith) (dispatch-Says a c e o eo v) sure m

apply-Mirrors :
    (a : AccountId) (id : ℕ) (c : Command) (e : Engine) (r : CommandResponse × Option EventBatch)
    (e' : Engine) (s : BookState)
    → apply a id c e ≡ some (r, e')
    → AllBooks IsSettled e.books
    → r.0 ≢ unsure
    → Mirrors e.books s
    → Mirrors e'.books (deliver r.1 s)
unfolding apply
apply-Mirrors a id c e r e' s h v sure m =
    let e₁ : Engine = record e { dedup = (insert_key dedup_window a id e.dedup).1 } in
    elim (Bool-cases (insert_key dedup_window a id e.dedup).0) [
      | inl fresh ↦
          run_command-Mirrors a c e₁ (dispatch a c e₁) (r, e') s refl (ground arith) v sure m
      | inr old ↦
          let same : ((duplicate, none), e₁) ≡ (r, e') = ground arith in
          subst (λ (x : Answer). Mirrors x.1.books (deliver x.0.1 s)) same m
    ]

-- What commands without a panic are answered, with the batches, on the way from an engine to one.
pub data Answers : List (CommandResponse × Option EventBatch) → Engine → Engine → Type 0 where
  idle : (e : Engine) → Answers [] e e
  answered :
      (a : AccountId) (id : ℕ) (c : Command) (r : CommandResponse × Option EventBatch)
      (rs : List (CommandResponse × Option EventBatch)) (e e₁ e₂ : Engine)
      → apply a id c e ≡ some (r, e₁)
      → Answers rs e₁ e₂
      → Answers (r ∷ rs) e e₂

abbrev pub delivered : List (CommandResponse × Option EventBatch) → BookState → BookState
delivered [] s = s
delivered (r ∷ rs) s = delivered rs (deliver r.1 s)

Answers-Mirrors :
    (rs : List (CommandResponse × Option EventBatch)) (e e' : Engine) (s : BookState)
    → Answers rs e e'
    → All (λ (r : CommandResponse × Option EventBatch). r.0 ≢ unsure) rs
    → AllBooks IsSettled e.books
    → Mirrors e.books s
    → Mirrors e'.books (delivered rs s)
Answers-Mirrors _ _ _ s (idle e) sure v m = m
Answers-Mirrors _ _ _ s (answered a id c r rs e e₁ e₂ h later) sure v m =
    Answers-Mirrors rs e₁ e₂ (deliver r.1 s) later sure.1
      (apply-Keeps IsSettled IsSettled-IsKept a id c e r e₁ h v)
      (apply-Mirrors a id c e r e₁ s h v sure.0 m)

empty-Mirrors : Mirrors new_engine.books new_store
unfolding HashMap.get_or HashMap.get qty_at levels_of BTreeMap.get
empty-Mirrors pair bid price = refl
empty-Mirrors pair ask price = refl

-- Whatever commands a new engine was given, as long as none panicked and no order was refused as an
-- invalid amount, a projection that began empty and was given the batches in their order shows at
-- every level of every market the quantity that the engine's book has there.
pub new_engine-Mirrors :
    (rs : List (CommandResponse × Option EventBatch)) (e : Engine) (pair : Pair) (side : Side)
    (price : ℕ)
    → Answers rs new_engine e
    → All (λ (r : CommandResponse × Option EventBatch). r.0 ≢ unsure) rs
    → shown pair side price (delivered rs new_store).books ≡ quantity pair side price e.books
new_engine-Mirrors rs e pair side price h sure =
    Answers-Mirrors rs new_engine e new_store h sure tt empty-Mirrors pair side price
