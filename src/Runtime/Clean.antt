-- ===== src/Runtime/Clean.antt =====
-- Between commands the scratch fields are empty, so that a snapshot loses nothing but the limits.
use cex_matching_engine.Prelude.{
  ℕ, ◌≡◌, refl, sym, arith, Option, none, some, List, [], ◌∷◌, ◌++◌, map, subst, Bool-cases, inl,
  inr, ◌∙◌,
}
use cex_matching_engine.Market.{AccountId}
use cex_matching_engine.Book.Types.{Order, OrderRequest, LevelDelta, OrderBook}
use cex_matching_engine.Book.Levels.{take_dirty_levels}
use cex_matching_engine.Book.Matching.{add_order}
use cex_matching_engine.Book.Cancel
use cex_matching_engine.Book.Cancel.{forget_order}
use cex_matching_engine.Command.{Command, CommandResponse, EventBatch, Event, duplicate}
use cex_matching_engine.Ledger.{take_dirty}
use cex_matching_engine.Engine.State.{Engine, dedup_window, insert_key, default_limits, Limits}
use cex_matching_engine.Engine.Apply.{
  apply, run_command, dispatch, emit, stamp, Outcome, balance_events,
}
use cex_matching_engine.Engine.Books.{AllBooks, Books, IsKept, dispatch-Keeps}
use cex_matching_engine.Runtime.{stored, stored_book}
use cex_matching_engine.Engine.Frame.{dispatch-Frame}

abbrev pub HasNoMark : OrderBook → Type 0
HasNoMark book = book.dirty_levels ≡ []

added-HasNoMark :
    (id : ℕ) (a : AccountId) (req : OrderRequest) (book : OrderBook)
    → HasNoMark (add_order id a req book).1
unfolding add_order take_dirty_levels
added-HasNoMark id a req book = refl

removed-HasNoMark :
    (a : AccountId) (id : ℕ) (book : OrderBook) (r : Order × List LevelDelta × OrderBook)
    → Cancel.cancel_order a id book ≡ some r
    → HasNoMark r.2
unfolding Cancel.cancel_order forget_order take_dirty_levels
removed-HasNoMark a id book r h = ground arith

HasNoMark-IsKept : IsKept HasNoMark
HasNoMark-IsKept = record {
  fresh = refl;
  added = λ id a req book _. added-HasNoMark id a req book;
  removed = λ a id book r _ found. removed-HasNoMark a id book r found;
}

-- No entry of the ledger and no level of a book is marked, and the limits are the given ones.
pub record IsClean (limits : Limits) (e : Engine) : Type 0 where
  pub same_limits : e.limits ≡ limits
  pub ledger : e.ledger.dirty ≡ []
  pub books : AllBooks HasNoMark e.books

abbrev Answer : Type 0
Answer = (CommandResponse × Option EventBatch) × Engine

stamp-IsClean :
    (l : Limits) (response : CommandResponse) (events : List Event) (e : Engine)
    → IsClean l e
    → IsClean l (stamp response events e).1
unfolding stamp
stamp-IsClean l response [] e h = h
stamp-IsClean l response (event ∷ events) e h = record {
  same_limits = h.same_limits;
  ledger = h.ledger;
  books = h.books;
}

emit-IsClean :
    (l : Limits) (o : Outcome) (c : Option (List Event)) (r : Answer)
    → balance_events (take_dirty o.2.ledger).0 (take_dirty o.2.ledger).1 ≡ c
    → emit o ≡ some r
    → AllBooks HasNoMark o.2.books
    → o.2.limits ≡ l
    → IsClean l r.1
unfolding emit take_dirty
emit-IsClean l (response, events, e) none r ec h c m =
    let no : emit (response, events, e) ≡ none = ground arith in cc
emit-IsClean l (response, events, e) (some changed) r ec h c m =
    let drained : Engine = record e { ledger = (take_dirty e.ledger).1 } in
    let same : stamp response (events ++ changed) drained ≡ r = ground arith in
    subst (λ (x : Answer). IsClean l x.1) same
      (stamp-IsClean l response (events ++ changed) drained
        (record { same_limits = m; ledger = refl; books = c }))

run_command-IsClean :
    (l : Limits) (a : AccountId) (c : Command) (e : Engine) (o : Option Outcome) (r : Answer)
    → dispatch a c e ≡ o
    → run_command a c e ≡ some r
    → IsClean l e
    → IsClean l r.1
unfolding run_command
run_command-IsClean l a c e none r eo h v = let no : run_command a c e ≡ none = ground arith in cc
run_command-IsClean l a c e (some o) r eo h v =
    emit-IsClean l o (balance_events (take_dirty o.2.ledger).0 (take_dirty o.2.ledger).1) r refl
      (ground arith) (dispatch-Keeps HasNoMark HasNoMark-IsKept a c e o eo v.books)
      ((dispatch-Frame a c e o eo).limits ∙ v.same_limits)

-- A command that does not panic leaves no marked entry of the ledger and no marked level of a book
-- where there was none, and keeps the limits.
pub apply-IsClean :
    (l : Limits) (a : AccountId) (id : ℕ) (c : Command) (e : Engine)
    (r : CommandResponse × Option EventBatch) (e' : Engine)
    → apply a id c e ≡ some (r, e')
    → IsClean l e
    → IsClean l e'
unfolding apply
apply-IsClean l a id c e r e' h v = elim (Bool-cases (insert_key dedup_window a id e.dedup).0) [
  | inl fresh ↦
      let e₁ : Engine = record e { dedup = (insert_key dedup_window a id e.dedup).1 } in
      run_command-IsClean l a c e₁ (dispatch a c e₁) (r, e') refl (ground arith)
        (record { same_limits = v.same_limits; ledger = v.ledger; books = v.books })
  | inr old ↦
      let e₁ : Engine = record e { dedup = (insert_key dedup_window a id e.dedup).1 } in
      let same : ((duplicate, none), e₁) ≡ (r, e') = ground arith in
      subst (λ (x : Answer). IsClean l x.1) same
        (record { same_limits = v.same_limits; ledger = v.ledger; books = v.books })
]

stored_books-eq : (books : Books) → AllBooks HasNoMark books → map stored_book books ≡ books
stored_books-eq [] h = refl
stored_books-eq ((pair, book) ∷ books) h =
    λ i. (pair, record book { dirty_levels = sym h.0 i }) ∷ stored_books-eq books h.1 i

-- What is read back of a clean engine is that engine, but for the limits.
pub stored-eq :
    (l : Limits) (e : Engine) → IsClean l e → stored e ≡ record e { limits = default_limits }
unfolding stored
stored-eq l e v = λ i. record e {
  books = stored_books-eq e.books v.books i;
  ledger = record (e.ledger) { dirty = sym v.ledger i };
  limits = default_limits;
}
