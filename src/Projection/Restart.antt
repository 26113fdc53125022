-- ===== src/Projection/Restart.antt =====
-- bin/api/book.rs: what `tail` sends on and saves, and where a restart from it goes on.
use mathlib.Core.List.{append-nil, append_assoc}
use cex_matching_engine.Prelude.{
  refl, ℕ, ◌≡◌, Bool, true, Option, none, some, List, [], ◌∷◌, ◌++◌, ap, ◌∙◌, sym, Option-cases,
  inl, inr, All, All-append, leb, add_u64, Bool-cases, subst,
}
use cex_matching_engine.Prelude.Text.{Text}
use cex_matching_engine.Command.{EventBatch}
use cex_matching_engine.Runtime.{Entry}
use cex_matching_engine.Projection.{BookState, apply_batch}
use cex_matching_engine.Projection.Tail.{
  start_books, Tail, TailEffect, broadcast, save, announce, tail_entries, persist, tail_round,
  read_entry, tail,
}
use cex_matching_engine.Projection.Standing.{
  Ranges, StandsAt, Restores, Begins, IsEarlier, StandsAt-Restores, start_books-StandsAt,
  unread-StandsAt, read-StandsAt,
}

-- The batches that were sent to the websockets.
unfoldable pub sent : List TailEffect → List EventBatch
sent [] = []
sent (broadcast batch ∷ effects) = batch ∷ sent effects
sent (save id s ∷ effects) = sent effects
sent (announce id ∷ effects) = sent effects

unfoldable pub batches : (Text → Option EventBatch) → List Entry → List EventBatch
batches read [] = []
batches read (entry ∷ entries) = elim (read_entry read entry) [
  | none ↦ batches read entries
  | some batch ↦ batch ∷ batches read entries
]

unfoldable pub joined : List (List Entry) → List Entry
joined [] = []
joined (entries ∷ rounds) = entries ++ joined rounds

sent-append : (xs ys : List TailEffect) → sent (xs ++ ys) ≡ sent xs ++ sent ys
unfolding sent
sent-append [] ys = refl
sent-append (broadcast batch ∷ xs) ys = ap (λ (l : List EventBatch). batch ∷ l) (sent-append xs ys)
sent-append (save id s ∷ xs) ys = sent-append xs ys
sent-append (announce id ∷ xs) ys = sent-append xs ys

module _ (read : Text → Option EventBatch) where
  batches-append :
      (xs ys : List Entry) → batches read (xs ++ ys) ≡ batches read xs ++ batches read ys
  unfolding batches
  batches-append [] ys = refl
  batches-append (x ∷ xs) ys = elim (Option-cases (read_entry read x)) [
    | inl unread ↦ rw (unread, batches) (batches-append xs ys)
    | inr (batch, has) ↦
        rw (has, batches) (ap (λ (l : List EventBatch). batch ∷ l) (batches-append xs ys))
  ]

-- The tail as `bootstrap` starts it.
abbrev pub first_tail :
    (Text → Option EventBatch) → (Option Text → List Entry) → Option (Text × BookState) → Tail
first_tail read behind snapshot =
    let (s, id) = start_books read behind snapshot in
    record { store = s; last_id = id; since_snapshot = 0 }

module _ (read : Text → Option EventBatch) (stream : List Entry) (behind : Option Text → List Entry)
    (ranges : Ranges stream behind) (every : Option ℕ) (saves : Text → BookState → Bool) where
  abbrev pub Standing : Tail → List Entry → Type 0
  Standing t ys = StandsAt read stream behind t.last_id t.store ys

  -- What is saved restores the books, and an id is announced only where a snapshot with it was
  -- written.
  abbrev pub IsKept : TailEffect → Type 0
  IsKept (broadcast batch) = Unit
  IsKept (save id s) = Restores read stream behind id s
  IsKept (announce id) = (s : BookState) × (saves id s ≡ true) × Restores read stream behind id s

  -- Each reply is a beginning of what lies behind the id that the read asks for.
  abbrev pub Reads : List (List Entry) → Tail → Type 0
  Reads [] t = Unit
  Reads (entries ∷ rounds) t =
      ((rest : List Entry) × (behind (some t.last_id) ≡ entries ++ rest))
      × Reads rounds (tail_round read every saves entries t).1

  tail_entries-Standing :
      (entries rest : List Entry) (t : Tail)
      → Standing t (entries ++ rest)
      → let (effects, t') = tail_entries read entries t in
        Standing t' rest × (sent effects ≡ batches read entries) × All IsKept effects
  unfolding tail_entries sent batches
  tail_entries-Standing [] rest t at = (at, refl, tt)
  tail_entries-Standing (y ∷ ys) rest t at = elim (Option-cases (read_entry read y)) [
    | inl unread ↦
        rw (unread, tail_entries, batches)
          (tail_entries-Standing ys rest (record t { last_id = y.id })
            (unread-StandsAt read stream behind ranges t.last_id t.store y (ys ++ rest) unread at))
    | inr (batch, has) ↦
        let (at', each, kept) =
          tail_entries-Standing ys rest
            (record {
              store = apply_batch batch t.store;
              last_id = y.id;
              since_snapshot = add_u64 t.since_snapshot 1;
            })
            (read-StandsAt read stream behind ranges t.last_id t.store y (ys ++ rest) batch has
              at) in
        rw (has, tail_entries, batches)
          (at', ap (λ (l : List EventBatch). batch ∷ l) each, (tt, kept))
  ]

  persist-Standing :
      (o : Option ℕ) (rest : List Entry) (t : Tail)
      → Standing t rest
      → let (effects, t') = persist o saves t in
        Standing t' rest × (sent effects ≡ []) × All IsKept effects
  unfolding persist sent
  persist-Standing none rest t at = (at, refl, tt)
  persist-Standing (some n) rest t at =
      let restores = StandsAt-Restores read stream behind ranges t.last_id t.store rest at in
      elim (Bool-cases (leb n t.since_snapshot)) [
        | inl due ↦ elim (Bool-cases (saves t.last_id t.store)) [
          | inl written ↦
              rw (due, written) (at, refl, (restores, ((t.store, written, restores), tt)))
          | inr failed ↦ rw (due, failed) (at, refl, (restores, tt))
        ]
        | inr not_due ↦ rw (not_due) (at, refl, tt)
      ]

  tail_round-Standing :
      (entries rest : List Entry) (t : Tail)
      → Standing t (entries ++ rest)
      → let (effects, t') = tail_round read every saves entries t in
        Standing t' rest × (sent effects ≡ batches read entries) × All IsKept effects
  unfolding tail_round
  tail_round-Standing entries rest t at =
      let (at', each, kept) = tail_entries-Standing entries rest t at in
      let (at2, last, kept2) = persist-Standing every rest (tail_entries read entries t).1 at' in
      (
        at2,
        sent-append (tail_entries read entries t).0
              (persist every saves (tail_entries read entries t).1).0
            ∙ ap (λ (l : List EventBatch). sent (tail_entries read entries t).0 ++ l) last
            ∙ append-nil (sent (tail_entries read entries t).0)
            ∙ each,
        All-append IsKept _ _ kept kept2,
      )

  tail-Standing :
      (rounds : List (List Entry)) (t : Tail) (zs : List Entry)
      → Standing t zs
      → Reads rounds t
      → let (effects, t') = tail read every saves rounds t in
        (rest : List Entry) × (zs ≡ joined rounds ++ rest)
        × Standing t' rest
        × (sent effects ≡ batches read (joined rounds))
        × All IsKept effects
  unfolding tail joined sent batches
  tail-Standing [] t zs at reads = (zs, refl, at, refl, tt)
  tail-Standing (entries ∷ rounds) t zs at ((r, reply), reads) =
      let here = sym at.2 ∙ reply in
      let (at1, each, kept) =
        tail_round-Standing entries r t (subst (λ (l : List Entry). Standing t l) here at) in
      let (rest, more, at2, each2, kept2) =
        tail-Standing rounds (tail_round read every saves entries t).1 r at1 reads in
      (
        rest,
        here
            ∙ ap (λ (l : List Entry). entries ++ l) more
            ∙ sym (append_assoc entries (joined rounds) rest),
        at2,
        sent-append (tail_round read every saves entries t).0
              (tail read every saves rounds (tail_round read every saves entries t).1).0
            ∙ ap
                (λ (l : List EventBatch).
                  l
                  ++ sent
                      (tail read every saves rounds (tail_round read every saves entries t).1).0)
                each
            ∙ ap (λ (l : List EventBatch). batches read entries ++ l) each2
            ∙ sym (batches-append read entries (joined rounds)),
        All-append IsKept _ _ kept kept2,
      )

  -- `behind` is what redis' ranges give in the end, as its documentation says, on a stream that is
  -- not trimmed. The process begins without a snapshot or with one whose books are exactly what
  -- the entries up to its id make; what `bootstrap` reads, and each reply, is a beginning of what
  -- lies behind the id that was asked for, since the stream grows meanwhile. Then the batches that
  -- the tail sends on are those of consecutive entries, from the first behind the id that
  -- `bootstrap` came to, in their order and each once; at the end the books are exactly what the
  -- entries up to the tail's id make, and the range behind that id gives the entries that follow.
  -- What is saved in between is such a snapshot too, and a restart from it comes to the books of
  -- one that reads the whole stream. And an id is announced only where a file with it was written.
  pub tail_restart :
      (early : Option Text → List Entry)
      → IsEarlier early behind
      → (snapshot : Option (Text × BookState)) → Begins read stream behind snapshot
      → (rounds : List (List Entry)) → Reads rounds (first_tail read early snapshot)
      → let (effects, t') = tail read every saves rounds (first_tail read early snapshot) in
        (rest : List Entry) × (behind (some (first_tail read early snapshot).last_id)
          ≡ joined rounds ++ rest)
        × Standing t' rest
        × (sent effects ≡ batches read (joined rounds))
        × All IsKept effects
  tail_restart early grows snapshot begins rounds reads =
      let (zs, at) = start_books-StandsAt read stream behind ranges early grows snapshot begins in
      let (rest, parts, at', each, kept) = tail-Standing rounds _ zs at reads in
      (rest, at.2 ∙ parts, at', each, kept)
