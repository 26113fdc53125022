-- ===== src/Engine/Retry.antt =====
-- `apply`: sequence numbers have no gap, and a command that comes again is refused and changes
-- nothing.
use cex_matching_engine.Prelude.{
  ℕ, ◌≡◌, ◌≢◌, refl, arith, Option, none, some, ◌∙◌, sym, ap, Bool, false, Bool-cases, inl, inr,
  add_u64, List, [], ◌∷◌, subst, ◌++◌,
}
use cex_matching_engine.Market.{AccountId}
use cex_matching_engine.Command.{Command, CommandResponse, EventBatch, Event, duplicate}
use cex_matching_engine.Engine.State.{Engine, Dedup, dedup_window, insert_key}
use cex_matching_engine.Engine.Apply.{
  apply, run_command, dispatch, emit, stamp, Outcome, balance_events,
}
use cex_matching_engine.Engine.Frame.{dispatch-Frame, Frame}
use cex_matching_engine.Engine.Window.{IsWindow, insert_key-IsWindow, insert_key_retry}
use cex_matching_engine.Ledger.{take_dirty}

-- How the sequence number goes on from `e` to `e'` where a command emits `b`.
abbrev pub Numbered : Engine → Option EventBatch → Engine → Type 0
Numbered e none e' = e'.next_seq ≡ e.next_seq
Numbered e (some b) e' =
    (b.seq ≡ e.next_seq) × (e'.next_seq ≡ add_u64 e.next_seq 1) × (b.events ≢ [])

-- A batch and the engine behind it, against the engine before.
abbrev Stamped : Engine → (CommandResponse × Option EventBatch) × Engine → Type 0
Stamped e (r, e') = Numbered e r.1 e' × (e'.dedup ≡ e.dedup)

stamp-Stamped :
    (response : CommandResponse) (events : List Event) (e : Engine)
    → Stamped e (stamp response events e)
unfolding stamp
stamp-Stamped response [] e = (refl, refl)
stamp-Stamped response (event ∷ events) e = ((refl, refl, λ h. cc), refl)

emit-Stamped :
    (response : CommandResponse) (events : List Event) (e : Engine) (c : Option (List Event))
    (r : (CommandResponse × Option EventBatch) × Engine)
    → balance_events (take_dirty e.ledger).0 (take_dirty e.ledger).1 ≡ c
    → emit (response, events, e) ≡ some r
    → Stamped e r
unfolding emit
emit-Stamped response events e none r ec h = ground arith
emit-Stamped response events e (some changed) r ec h =
    let e₁ : Engine = record e { ledger = (take_dirty e.ledger).1 } in
    let same : stamp response (events ++ changed) e₁ ≡ r = ground arith in
    subst (Stamped e) same (stamp-Stamped response (events ++ changed) e₁)

Numbered-Frame :
    (e e₁ : Engine)
    → Frame e e₁
    → (b : Option EventBatch) (e' : Engine) → Numbered e₁ b e' × (e'.dedup ≡ e₁.dedup)
    → Numbered e b e' × (e'.dedup ≡ e.dedup)
Numbered-Frame e e₁ f none e' s = (s.0 ∙ f.next_seq, s.1 ∙ f.dedup)
Numbered-Frame e e₁ f (some b) e' s =
    ((s.0.0 ∙ f.next_seq, s.0.1 ∙ ap (λ n. add_u64 n 1) f.next_seq, s.0.2), s.1 ∙ f.dedup)

run_command-Stamped :
    (a : AccountId) (c : Command) (e : Engine) (o : Option Outcome)
    (r : (CommandResponse × Option EventBatch) × Engine)
    → dispatch a c e ≡ o
    → run_command a c e ≡ some r
    → Stamped e r
unfolding run_command
run_command-Stamped a c e none r eo h = ground arith
run_command-Stamped a c e (some (response, events, e₁)) r eo h =
    let f = dispatch-Frame a c e (response, events, e₁) eo in
    let s =
      emit-Stamped response events e₁
        (balance_events (take_dirty e₁.ledger).0 (take_dirty e₁.ledger).1) r refl (ground arith) in
    Numbered-Frame e e₁ f r.0.1 r.1 s

-- A run from the window of `d`.
abbrev renewed : Engine → Dedup → Engine
renewed e d = record e { dedup = d }

-- Every command that does not panic either emits no batch and leaves the sequence number alone, or
-- emits a batch of at least one event, which carries the number that was next, and moves on by one.
pub apply-Numbered :
    (a : AccountId) (id : ℕ) (c : Command) (e : Engine) (r : CommandResponse × Option EventBatch)
    (e' : Engine)
    → apply a id c e ≡ some (r, e')
    → Numbered e r.1 e'
unfolding apply
apply-Numbered a id c e r e' h = elim (Bool-cases (insert_key dedup_window a id e.dedup).0) [
  | inl fresh ↦
      let e₁ = renewed e (insert_key dedup_window a id e.dedup).1 in
      (run_command-Stamped a c e₁ (dispatch a c e₁) (r, e') refl (ground arith)).0
  | inr old ↦
      let same : ((duplicate, none), renewed e (insert_key dedup_window a id e.dedup).1) ≡ (r, e') =
        ground arith in
      subst (λ (x : (CommandResponse × Option EventBatch) × Engine). Numbered e x.0.1 x.1) same refl
]

-- Where `apply` does not panic, it leaves the window that `insert_key` made.
apply-Dedup :
    (a : AccountId) (id : ℕ) (c : Command) (e : Engine) (r : CommandResponse × Option EventBatch)
    (e' : Engine)
    → apply a id c e ≡ some (r, e')
    → (insert_key dedup_window a id e.dedup).1 ≡ e'.dedup
unfolding apply
apply-Dedup a id c e r e' h = elim (Bool-cases (insert_key dedup_window a id e.dedup).0) [
  | inl fresh ↦
      let e₁ = renewed e (insert_key dedup_window a id e.dedup).1 in
      sym (run_command-Stamped a c e₁ (dispatch a c e₁) (r, e') refl (ground arith)).1
  | inr old ↦
      let d' = (insert_key dedup_window a id e.dedup).1 in
      let same : ((duplicate, none), renewed e d') ≡ (r, e') = ground arith in
      subst (λ (x : (CommandResponse × Option EventBatch) × Engine). d' ≡ x.1.dedup) same refl
]

-- A key in the window is answered by `apply` at once.
apply_old :
    (a : AccountId) (id : ℕ) (c : Command) (e : Engine) (q : Bool × Dedup)
    → insert_key dedup_window a id e.dedup ≡ q
    → q.0 ≡ false
    → q.1 ≡ e.dedup
    → apply a id c e ≡ some ((duplicate, none), e)
unfolding apply
apply_old a id c e q eq refused same = rw (ap (λ x. x.0) eq ∙ refused, ap (λ x. x.1) eq ∙ same) refl

-- Once a command was applied without a panic to an engine with a well-formed window of keys, any
-- command under the same account and key is answered as a duplicate, emits nothing and leaves the
-- engine exactly as it is.
pub apply_retry :
    (a : AccountId) (id : ℕ) (c : Command) (e : Engine) (r : CommandResponse × Option EventBatch)
    (e' : Engine) (c' : Command)
    → IsWindow dedup_window e.dedup
    → apply a id c e ≡ some (r, e')
    → apply a id c' e' ≡ some ((duplicate, none), e')
apply_retry a id c e r e' c' v h =
    let d' = (insert_key dedup_window a id e.dedup).1 in
    let kept = apply-Dedup a id c e r e' h in
    let refused = insert_key_retry dedup_window a id e.dedup v (omega arith) in
    let window = insert_key-IsWindow dedup_window a id e.dedup v in
    let unchanged : (insert_key dedup_window a id d').1 ≡ d' =
      elim (insert_key-IsWindow dedup_window a id d' window.0).2 [
        | inl fresh ↦ cc
        | inr same ↦ same
      ] in
    apply_old a id c' e' (insert_key dedup_window a id e'.dedup) refl
      (subst (λ d. (insert_key dedup_window a id d).0 ≡ false) kept refused)
      (subst (λ d. (insert_key dedup_window a id d).1 ≡ d) kept unchanged)
