-- ===== src/Projection/Standing.antt =====
-- bin/api/book.rs: where a projection stands in the stream, at its start and after an entry.
use mathlib.Core.List.{append-nil, append_assoc}
use cex_matching_engine.Prelude.{
  refl, ◌≡◌, Option, none, some, List, [], ◌∷◌, ◌++◌, ap, ◌∙◌, sym, Option-cases, inl, inr,
}
use cex_matching_engine.Prelude.Text.{Text, codes}
use cex_matching_engine.Command.{EventBatch}
use cex_matching_engine.Runtime.{Entry}
use cex_matching_engine.Projection.{new_store, BookState, apply_batch}
use cex_matching_engine.Projection.Tail.{bootstrap_entries, start_books, read_entry}

module _ (read : Text → Option EventBatch) where
  -- The books do not hang on the id that the loop begins with.
  bootstrap_entries-id :
      (ys : List Entry) (s : BookState) (id id' : Text)
      → (bootstrap_entries read ys s id).0 ≡ (bootstrap_entries read ys s id').0
  unfolding bootstrap_entries
  bootstrap_entries-id [] s id id' = refl
  bootstrap_entries-id (y ∷ ys) s id id' = elim (Option-cases (read_entry read y)) [
    | inl unread ↦ rw (unread, bootstrap_entries) (bootstrap_entries-id ys s id id')
    | inr (batch, has) ↦ rw (has, bootstrap_entries) refl
  ]

  bootstrap_entries-append :
      (xs ys : List Entry) (s : BookState) (id id' id'' : Text)
      → (bootstrap_entries read (xs ++ ys) s id).0
        ≡ (bootstrap_entries read ys (bootstrap_entries read xs s id').0 id'').0
  unfolding bootstrap_entries
  bootstrap_entries-append [] ys s id id' id'' = bootstrap_entries-id ys s id id''
  bootstrap_entries-append (x ∷ xs) ys s id id' id'' = elim (Option-cases (read_entry read x)) [
    | inl unread ↦ rw (unread, bootstrap_entries) (bootstrap_entries-append xs ys s id id' id'')
    | inr (batch, has) ↦
        rw (has, bootstrap_entries)
          (bootstrap_entries-append xs ys (apply_batch batch s) x.id x.id id'')
  ]

  -- The books that entries make, from empty ones.
  abbrev pub books_of : List Entry → BookState
  books_of xs = (bootstrap_entries read xs new_store (codes "0")).0

  books_of-read :
      (xs : List Entry) (x : Entry) (batch : EventBatch)
      → read_entry read x ≡ some batch
      → books_of (xs ++ x ∷ []) ≡ apply_batch batch (books_of xs)
  unfolding bootstrap_entries
  books_of-read xs x batch has =
      bootstrap_entries-append xs (x ∷ []) new_store (codes "0") (codes "0") (codes "0")
      ∙ rw (has, bootstrap_entries) refl

  books_of-unread :
      (xs : List Entry) (x : Entry)
      → read_entry read x ≡ none
      → books_of (xs ++ x ∷ []) ≡ books_of xs
  unfolding bootstrap_entries
  books_of-unread xs x unread =
      bootstrap_entries-append xs (x ∷ []) new_store (codes "0") (codes "0") (codes "0")
      ∙ rw (unread, bootstrap_entries) refl

-- What redis documents of a range query on a stream that is not trimmed: from the beginning it gives
-- the whole stream, behind the id 0 too, and behind the id of an entry the entries behind that one.
pub record Ranges (stream : List Entry) (behind : Option Text → List Entry) : Type 0 where
  pub whole : behind none ≡ stream
  pub from_zero : behind (some (codes "0")) ≡ stream
  pub after : (xs ys : List Entry) (x : Entry) → stream ≡ xs ++ x ∷ ys → behind (some x.id) ≡ ys

-- A range that is asked for while the stream still grows is a beginning of what it will be.
abbrev pub IsEarlier : (Option Text → List Entry) → (Option Text → List Entry) → Type 0
IsEarlier early behind = (o : Option Text) → (more : List Entry) × (behind o ≡ early o ++ more)

append-snoc : (xs ys : List Entry) (x : Entry) → xs ++ x ∷ ys ≡ (xs ++ x ∷ []) ++ ys
append-snoc [] ys x = refl
append-snoc (z ∷ xs) ys x = ap (λ (l : List Entry). z ∷ l) (append-snoc xs ys x)

module _ (read : Text → Option EventBatch) (stream : List Entry)
    (behind : Option Text → List Entry) where
  -- The books are exactly what the entries up to the id make, and `ys` are the entries behind it.
  abbrev pub StandsAt : Text → BookState → List Entry → Type 0
  StandsAt id s ys =
      (xs : List Entry) × (stream ≡ xs ++ ys) × (behind (some id) ≡ ys) × (s ≡ books_of read xs)

  -- A snapshot: its books are what the entries up to its id make, and a process that restarts from
  -- it comes to the books that one comes to which reads the whole stream.
  abbrev pub Restores : Text → BookState → Type 0
  Restores id s =
      ((ys : List Entry) × StandsAt id s ys)
      × ((start_books read behind (some (id, s))).0 ≡ (start_books read behind none).0)

  pub StandsAt-Restores :
      Ranges stream behind
      → (id : Text) (s : BookState) (ys : List Entry) → StandsAt id s ys
      → Restores id s
  unfolding start_books
  StandsAt-Restores ranges id s ys (xs, parts, rest, made) = (
    (ys, (xs, parts, rest, made)),
    ap (λ entries. (bootstrap_entries read entries s id).0) rest
        ∙ ap (λ (x : BookState). (bootstrap_entries read ys x id).0) made
        ∙ sym (bootstrap_entries-append read xs ys new_store (codes "0") (codes "0") id)
        ∙ ap (λ entries. (bootstrap_entries read entries new_store (codes "0")).0)
            (sym (ranges.whole ∙ parts)),
  )

  -- Entries that cannot be read do not move the id of `bootstrap`.
  bootstrap-StandsAt :
      Ranges stream behind
      → (more ys us xs : List Entry) (s : BookState) (id : Text)
      → stream ≡ (xs ++ us) ++ (ys ++ more)
      → behind (some id) ≡ us ++ (ys ++ more)
      → s ≡ books_of read xs
      → books_of read (xs ++ us) ≡ books_of read xs
      → let (s', id') = bootstrap_entries read ys s id in (zs : List Entry) × StandsAt id' s' zs
  unfolding bootstrap_entries
  bootstrap-StandsAt ranges more [] us xs s id parts rest made same =
      (us ++ more, (xs, parts ∙ append_assoc xs us more, rest, made))
  bootstrap-StandsAt ranges more (y ∷ ys) us xs s id parts rest made same =
      elim (Option-cases (read_entry read y)) [
        | inl unread ↦
            rw (unread, bootstrap_entries)
              (bootstrap-StandsAt ranges more ys (us ++ y ∷ []) xs s id
                (parts
                  ∙ append-snoc (xs ++ us) (ys ++ more) y
                  ∙ ap (λ (l : List Entry). l ++ (ys ++ more)) (append_assoc xs us (y ∷ [])))
                (rest ∙ append-snoc us (ys ++ more) y) made
                (ap (λ l. books_of read l) (sym (append_assoc xs us (y ∷ [])))
                  ∙ books_of-unread read (xs ++ us) y unread
                  ∙ same))
        | inr (batch, has) ↦
            rw (has, bootstrap_entries)
              (bootstrap-StandsAt ranges more ys [] ((xs ++ us) ++ y ∷ []) (apply_batch batch s)
                y.id
                (parts
                  ∙ append-snoc (xs ++ us) (ys ++ more) y
                  ∙ ap (λ (l : List Entry). l ++ (ys ++ more))
                      (sym (append-nil ((xs ++ us) ++ y ∷ []))))
                (ranges.after (xs ++ us) (ys ++ more) y parts)
                (ap (λ (b : BookState). apply_batch batch b) (made ∙ sym same)
                  ∙ sym (books_of-read read (xs ++ us) y batch has))
                (ap (λ l. books_of read l) (append-nil ((xs ++ us) ++ y ∷ []))))
      ]

  -- A process begins without a snapshot, or with one whose books are what the entries up to its id
  -- make.
  abbrev pub Begins : Option (Text × BookState) → Type 0
  Begins none = Unit
  Begins (some (id, s)) = (ys : List Entry) × StandsAt id s ys

  pub start_books-StandsAt :
      Ranges stream behind
      → (early : Option Text → List Entry) → IsEarlier early behind
      → (snapshot : Option (Text × BookState)) → Begins snapshot
      → let (s, id) = start_books read early snapshot in (ys : List Entry) × StandsAt id s ys
  unfolding start_books bootstrap_entries
  start_books-StandsAt ranges early grows none begins =
      let (more, found) = grows none in
      bootstrap-StandsAt ranges more (early none) [] [] new_store (codes "0")
        (sym ranges.whole ∙ found) (ranges.from_zero ∙ sym ranges.whole ∙ found) refl refl
  start_books-StandsAt ranges early grows (some (id, s)) (ys, (xs, parts, rest, made)) =
      let (more, found) = grows (some id) in
      bootstrap-StandsAt ranges more (early (some id)) [] xs s id
        (parts
          ∙ ap (λ (l : List Entry). l ++ ys) (sym (append-nil xs))
          ∙ ap (λ (l : List Entry). (xs ++ []) ++ l) (sym rest ∙ found))
        found made (ap (λ l. books_of read l) (append-nil xs))

  -- What an entry of a reply does to where the books stand.
  pub unread-StandsAt :
      Ranges stream behind
      → (id : Text) (s : BookState) (y : Entry) (ys : List Entry) → read_entry read y ≡ none
      → StandsAt id s (y ∷ ys)
      → StandsAt y.id s ys
  unread-StandsAt ranges id s y ys unread (xs, parts, rest, made) = (
    xs ++ y ∷ [],
    parts ∙ append-snoc xs ys y,
    ranges.after xs ys y parts,
    made ∙ sym (books_of-unread read xs y unread),
  )

  pub read-StandsAt :
      Ranges stream behind
      → (id : Text) (s : BookState) (y : Entry) (ys : List Entry) (batch : EventBatch)
      → read_entry read y ≡ some batch
      → StandsAt id s (y ∷ ys)
      → StandsAt y.id (apply_batch batch s) ys
  read-StandsAt ranges id s y ys batch has (xs, parts, rest, made) = (
    xs ++ y ∷ [],
    parts ∙ append-snoc xs ys y,
    ranges.after xs ys y parts,
    ap (λ (b : BookState). apply_batch batch b) made ∙ sym (books_of-read read xs y batch has),
  )
