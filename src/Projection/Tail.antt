-- ===== src/Projection/Tail.antt =====
-- bin/api/book.rs: the projection's life: `bootstrap` from a snapshot and the entries behind it, and
-- `tail`, which follows the stream. What redis answers is an argument; a call that fails ends the
-- program.
use cex_matching_engine.Prelude.{
  ℕ, Bool, Option, none, some, List, [], ◌∷◌, ◌++◌, leb, if◌then◌else◌, add_u64,
}
use cex_matching_engine.Prelude.Text.{Text, codes}
use cex_matching_engine.Command.{EventBatch}
use cex_matching_engine.Runtime.{Entry}
use cex_matching_engine.Projection.{BookState, apply_batch, new_store}

-- The batch of an entry, where it has one that can be read.
unfoldable pub read_entry : (Text → Option EventBatch) → Entry → Option EventBatch
read_entry read entry = elim entry.payload [ none ↦ none | some text ↦ read text ]

-- The loop of `bootstrap`: the books, and the id of the last batch.
unfoldable pub bootstrap_entries :
    (Text → Option EventBatch) → List Entry → BookState → Text → BookState × Text
bootstrap_entries read [] s last_id = (s, last_id)
bootstrap_entries read (entry ∷ entries) s last_id = elim (read_entry read entry) [
  | none ↦ bootstrap_entries read entries s last_id
  | some batch ↦ bootstrap_entries read entries (apply_batch batch s) entry.id
]

-- `bootstrap`: the range query is given where to start, behind an id or at the beginning.
unfoldable pub start_books :
    (Text → Option EventBatch)
    → (Option Text → List Entry)
    → Option (Text × BookState)
    → BookState × Text
start_books read xrange none = bootstrap_entries read (xrange none) new_store (codes "0")
start_books read xrange (some (id, state)) = bootstrap_entries read (xrange (some id)) state id

pub data TailEffect : Type 0 where
  broadcast : EventBatch → TailEffect
  save : Text → BookState → TailEffect
  announce : Text → TailEffect

pub record Tail : Type 0 where
  pub store : BookState
  pub last_id : Text
  pub since_snapshot : ℕ

-- The loop over the entries of a reply.
unfoldable pub tail_entries :
    (Text → Option EventBatch) → List Entry → Tail → List TailEffect × Tail
tail_entries read [] t = ([], t)
tail_entries read (entry ∷ entries) t = elim (read_entry read entry) [
  | none ↦ tail_entries read entries (record t { last_id = entry.id })
  | some batch ↦
      let (effects, t') = tail_entries read entries (record {
        store = apply_batch batch t.store;
        last_id = entry.id;
        since_snapshot = add_u64 t.since_snapshot 1;
      }) in
      (broadcast batch ∷ effects, t')
]

-- The snapshot at the end of a round, where it is due; the id is announced only where the file was
-- written.
unfoldable pub persist : Option ℕ → (Text → BookState → Bool) → Tail → List TailEffect × Tail
persist none saves t = ([], t)
persist (some every) saves t =
    if leb every t.since_snapshot
    then (
      save t.last_id t.store ∷ (if saves t.last_id t.store then announce t.last_id ∷ [] else []),
      record t { since_snapshot = 0 },
    )
    else ([], t)

-- A round of `tail`.
unfoldable pub tail_round :
    (Text → Option EventBatch)
    → Option ℕ
    → (Text → BookState → Bool)
    → List Entry
    → Tail
    → List TailEffect × Tail
tail_round read every saves entries t =
    let (effects, t1) = tail_entries read entries t in
    let (last, t2) = persist every saves t1 in (effects ++ last, t2)

-- The loop of `tail`, over the entries of each of its reads.
unfoldable pub tail :
    (Text → Option EventBatch)
    → Option ℕ
    → (Text → BookState → Bool)
    → List (List Entry)
    → Tail
    → List TailEffect × Tail
tail read every saves [] t = ([], t)
tail read every saves (entries ∷ rounds) t =
    let (effects, t1) = tail_round read every saves entries t in
    let (later, t2) = tail read every saves rounds t1 in (effects ++ later, t2)
