-- ===== src/Engine/Statements.antt =====
-- The balances that a reader of the batches keeps are those of the ledger.
use cex_matching_engine.Prelude.{
  ℕ, ◌≡◌, refl, sym, ap, ◌∙◌, Bool, true, false, if◌then◌else◌, arith, some, none, Option, [], ◌∷◌,
  ◌++◌, List, nat_eq, pair_eq, Bool-cases, inl, inr, subst,
}
use cex_matching_engine.Prelude.HashMap
use cex_matching_engine.Market.{AccountId, Currency, currency_eq}
use cex_matching_engine.Command.{Command, CommandResponse, EventBatch, Event, duplicate}
use cex_matching_engine.Ledger.{Ledger, Balance, no_balance, balance_of, take_dirty}
use cex_matching_engine.Ledger.Marks.{Marked}
use cex_matching_engine.Engine.State.{Engine, new_engine, insert_key, dedup_window}
use cex_matching_engine.Engine.Apply.{
  apply, run_command, dispatch, emit, stamp, Outcome, balance_events,
}
use cex_matching_engine.Engine.Accounts.{dispatch-Marked}
use cex_matching_engine.Engine.Notes.{noted, noted-append, noted-dispatch, noted-balance_events}
use cex_matching_engine.Projection.Mirror.{Answers, idle, answered}

abbrev Answer : Type 0
Answer = (CommandResponse × Option EventBatch) × Engine

abbrev pub events_of : Option EventBatch → List Event
events_of none = []
events_of (some batch) = batch.events

-- The batch of an answer says of every entry of the ledger what it holds after, and no mark is left.
abbrev Stated : Ledger → Answer → Type 0
Stated old r =
    (r.1.ledger.dirty ≡ [])
    × ((a : AccountId) (c : Currency)
        → balance_of a c r.1.ledger ≡ noted a c (events_of r.0.1) (balance_of a c old))

stamp_lem :
    (response : CommandResponse) (events : List Event) (e : Engine)
    → (events_of (stamp response events e).0.1 ≡ events)
      × ((stamp response events e).1.ledger ≡ e.ledger)
unfolding stamp
stamp_lem response [] e = (refl, refl)
stamp_lem response (event ∷ events) e = (refl, refl)

drained_choice :
    (b : Bool) (now old : Balance) → (b ≡ false → now ≡ old) → now ≡ (if b then now else old)
drained_choice true now old h = refl
drained_choice false now old h = h refl

emit-Stated :
    (o : Outcome) (changed : Option (List Event)) (r : Answer) (old : Ledger)
    → balance_events (take_dirty o.2.ledger).0 (take_dirty o.2.ledger).1 ≡ changed
    → emit o ≡ some r
    → Marked old o.2.ledger
    → ((a : AccountId) (c : Currency) (b : Balance) → noted a c o.1 b ≡ b)
    → Stated old r
unfolding emit take_dirty balance_of
emit-Stated (response, events, e) none r old ec h marks quiet =
    let panic : emit (response, events, e) ≡ none = ground arith in cc
emit-Stated (response, events, e) (some changed) r old ec h marks quiet =
    let drained : Ledger = record (e.ledger) { dirty = [] } in
    let e1 : Engine = record e { ledger = drained } in
    let same : stamp response (events ++ changed) e1 ≡ r = ground arith in
    let (says, ledger) = stamp_lem response (events ++ changed) e1 in
    subst (Stated old) same (
      ap (λ (l : Ledger). l.dirty) ledger,
      λ a c.
          let before = balance_of a c old in
          ap (balance_of a c) ledger
          ∙ drained_choice (HashMap.contains (a, c) e.ledger.dirty) (balance_of a c drained) before
              (λ clean. (marks a c clean).1)
          ∙ sym (noted-balance_events a c drained e.ledger.dirty changed before ec)
          ∙ ap (noted a c changed) (sym (quiet a c before))
          ∙ sym (noted-append a c events changed before)
          ∙ ap (λ (es : List Event). noted a c es before) (sym says),
    )

run_command-Stated :
    (a : AccountId) (c : Command) (e : Engine) (o : Option Outcome) (r : Answer)
    → dispatch a c e ≡ o
    → run_command a c e ≡ some r
    → Stated e.ledger r
unfolding run_command
run_command-Stated a c e none r eo h = let panic : run_command a c e ≡ none = ground arith in cc
run_command-Stated a c e (some o) r eo h =
    emit-Stated o (balance_events (take_dirty o.2.ledger).0 (take_dirty o.2.ledger).1) r e.ledger
      refl (ground arith) (dispatch-Marked a c e o eo)
      (λ a' c' b. noted-dispatch a' c' a c e o eo b)

apply-Stated :
    (a : AccountId) (id : ℕ) (c : Command) (e : Engine) (r : Answer)
    → apply a id c e ≡ some r
    → e.ledger.dirty ≡ []
    → Stated e.ledger r
unfolding apply
apply-Stated a id c e r h clean =
    let e₁ : Engine = record e { dedup = (insert_key dedup_window a id e.dedup).1 } in
    elim (Bool-cases (insert_key dedup_window a id e.dedup).0) [
      | inl fresh ↦ run_command-Stated a c e₁ (dispatch a c e₁) r refl (ground arith)
      | inr old ↦
          let same : ((duplicate, none), e₁) ≡ r = ground arith in
          subst (Stated e.ledger) same (clean, λ a' c'. refl)
    ]

-- What a reader keeps of an entry after the batches of some commands.
abbrev pub statement :
    AccountId → Currency → List (CommandResponse × Option EventBatch) → Balance → Balance
statement a c [] old = old
statement a c (r ∷ rs) old = statement a c rs (noted a c (events_of r.1) old)

Answers-statement :
    (rs : List (CommandResponse × Option EventBatch)) (e e' : Engine) (a : AccountId) (c : Currency)
    → Answers rs e e'
    → e.ledger.dirty ≡ []
    → balance_of a c e'.ledger ≡ statement a c rs (balance_of a c e.ledger)
Answers-statement _ _ _ a c (idle e) clean = refl
Answers-statement _ _ _ a c (answered owner id command r rs e e₁ e₂ h later) clean =
    let (clean', says) = apply-Stated owner id command e (r, e₁) h clean in
    Answers-statement rs e₁ e₂ a c later clean' ∙ ap (statement a c rs) (says a c)

-- Whatever commands a new engine was given, as long as none panicked, a reader of their batches that
-- keeps the last amounts of every account and currency, and no funds where it has read none, has
-- the balances of the engine.
pub new_engine-statement :
    (rs : List (CommandResponse × Option EventBatch)) (e : Engine) (a : AccountId) (c : Currency)
    → Answers rs new_engine e
    → balance_of a c e.ledger ≡ statement a c rs no_balance
unfolding balance_of HashMap.get_or HashMap.get
new_engine-statement rs e a c h = Answers-statement rs new_engine e a c h refl
