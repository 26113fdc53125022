-- ===== src/Engine/Markets.antt =====
-- Every market of the engine is in order and not crossed, whatever commands it was given.
use cex_matching_engine.Prelude.{
  ℕ, ◌≡◌, refl, sym, ap, ◌∙◌, arith, Option, none, some, List, [], ◌∷◌, ◌++◌, subst, Bool-cases,
  inl, inr,
}
use cex_matching_engine.Market.{AccountId}
use cex_matching_engine.Book.Types.{OrderBook}
use cex_matching_engine.Book.Order.{IsOrdered, add_order-IsOrdered}
use cex_matching_engine.Book.Crossing.{IsUncrossed}
use cex_matching_engine.Book.Uncrossed.{add_order-IsUncrossed}
use cex_matching_engine.Book.Cancelling.{cancel_order-IsOrdered, cancel_order-IsUncrossed}
use cex_matching_engine.Command.{Command, CommandResponse, EventBatch, Event, duplicate}
use cex_matching_engine.Ledger.{take_dirty}
use cex_matching_engine.Engine.State.{Engine, new_engine, dedup_window, insert_key}
use cex_matching_engine.Engine.Apply.{
  apply, run_command, dispatch, emit, stamp, Outcome, balance_events,
}
use cex_matching_engine.Engine.Books.{AllBooks, IsKept, Keeps, dispatch-Keeps}

abbrev Answer : Type 0
Answer = (CommandResponse × Option EventBatch) × Engine

-- The events and the number that come behind a command leave the books.
stamp-books :
    (response : CommandResponse) (events : List Event) (e : Engine)
    → (stamp response events e).1.books ≡ e.books
unfolding stamp
stamp-books response [] e = refl
stamp-books response (event ∷ events) e = refl

emit-books :
    (o : Outcome) (c : Option (List Event)) (r : Answer)
    → balance_events (take_dirty o.2.ledger).0 (take_dirty o.2.ledger).1 ≡ c
    → emit o ≡ some r
    → r.1.books ≡ o.2.books
unfolding emit
emit-books (response, events, e) none r ec h = ground arith
emit-books (response, events, e) (some changed) r ec h =
    let drained : Engine = record e { ledger = (take_dirty e.ledger).1 } in
    let same : stamp response (events ++ changed) drained ≡ r = ground arith in
    ap (λ (x : Answer). x.1.books) (sym same) ∙ stamp-books response (events ++ changed) drained

module _ (P : OrderBook → Type 0) (kept : IsKept P) where
  run_command-Keeps :
      (a : AccountId) (c : Command) (e : Engine) (o : Option Outcome) (r : Answer)
      → dispatch a c e ≡ o
      → run_command a c e ≡ some r
      → Keeps P e r.1
  unfolding run_command
  run_command-Keeps a c e none r eo h v = let no : run_command a c e ≡ none = ground arith in cc
  run_command-Keeps a c e (some o) r eo h v =
      subst (AllBooks P)
        (sym (
          emit-books o (balance_events (take_dirty o.2.ledger).0 (take_dirty o.2.ledger).1) r refl
            (ground arith)))
        (dispatch-Keeps P kept a c e o eo v)

  pub apply-Keeps :
      (a : AccountId) (id : ℕ) (c : Command) (e : Engine) (r : CommandResponse × Option EventBatch)
      (e' : Engine)
      → apply a id c e ≡ some (r, e')
      → Keeps P e e'
  unfolding apply
  apply-Keeps a id c e r e' h v =
      let e₁ : Engine = record e { dedup = (insert_key dedup_window a id e.dedup).1 } in
      elim (Bool-cases (insert_key dedup_window a id e.dedup).0) [
        | inl fresh ↦ run_command-Keeps a c e₁ (dispatch a c e₁) (r, e') refl (ground arith) v
        | inr old ↦
            let same : ((duplicate, none), e₁) ≡ (r, e') = ground arith in
            subst (λ (x : Answer). AllBooks P x.1.books) same v
      ]

-- The book of a market: its levels in the order of their prices, and every bid below every ask.
pub record IsMarket (book : OrderBook) : Type 0 where
  pub ordered : IsOrdered book
  pub uncrossed : IsUncrossed book

IsMarket-IsKept : IsKept IsMarket
IsMarket-IsKept = record {
  fresh = record { ordered = record { bids = tt; asks = tt }; uncrossed = λ p q hp hq. cc };
  added = λ id a req book v. record {
    ordered = add_order-IsOrdered id a req book v.ordered;
    uncrossed = add_order-IsUncrossed id a req book v.ordered v.uncrossed;
  };
  removed = λ a id book r v h. record {
    ordered = cancel_order-IsOrdered a id book r h v.ordered;
    uncrossed = cancel_order-IsUncrossed a id book r h v.uncrossed;
  };
}

-- A command as it is applied: the account, the client's key and what is asked for.
abbrev pub Request : Type 0
Request = AccountId × ℕ × Command

-- The engines that commands without a panic lead to.
pub data Leads : List Request → Engine → Engine → Type 0 where
  here : (e : Engine) → Leads [] e e
  step :
      (a : AccountId) (id : ℕ) (c : Command) (cs : List Request) (e e₁ e₂ : Engine)
      (r : CommandResponse × Option EventBatch)
      → apply a id c e ≡ some (r, e₁)
      → Leads cs e₁ e₂
      → Leads ((a, id, c) ∷ cs) e e₂

Leads-Keeps :
    (P : OrderBook → Type 0) (kept : IsKept P) (cs : List Request) (e e' : Engine)
    → Leads cs e e'
    → Keeps P e e'
Leads-Keeps P kept _ _ _ (here e) v = v
Leads-Keeps P kept _ _ _ (step a id c cs e e₁ e₂ r h later) v =
    Leads-Keeps P kept cs e₁ e₂ later (apply-Keeps P kept a id c e r e₁ h v)

-- Whatever commands a new engine was given, as long as none panicked, every one of its books has its
-- levels in the order of their prices and every bid below every ask.
pub new_engine-IsMarket :
    (cs : List Request) (e : Engine) → Leads cs new_engine e → AllBooks IsMarket e.books
new_engine-IsMarket cs e h = Leads-Keeps IsMarket IsMarket-IsKept cs new_engine e h tt
