-- ===== src/DbWriter/Loop.antt =====
-- bin/db_writer.rs, `main`: a round of its loop. What redis and the database answer is an argument,
-- and what the round asks of them is a list of effects in order.
use cex_matching_engine.Prelude.{
  ℕ, Option, none, some, List, [], ◌∷◌, ◌++◌, map, leb, if◌then◌else◌, add_u64,
}
use cex_matching_engine.Prelude.Int.{ℤ}
use cex_matching_engine.Prelude.Text.{Text}
use cex_matching_engine.Command.{EventBatch}
use cex_matching_engine.Snapshot.{earlier}
use cex_matching_engine.Runtime.{Entry}
use cex_matching_engine.DbWriter.Tables.{Database, apply_batch}

-- `TRIM_EVERY_BATCHES`
abbrev pub trim_every_batches : ℕ
trim_every_batches = 100

pub data Effect : Type 0 where
  commit : Database → Effect
  ack : Text → Effect
  trim : Text → Effect

-- What the transaction holds, and the ids of the entries that were read.
pub record Staging : Type 0 where
  pub staged : List Text
  pub poison : List Text
  pub tx : Database

-- The batch of an entry, where it has one that can be read.
unfoldable pub batch_of : (Text → Option EventBatch) → Entry → Option EventBatch
batch_of read entry = elim entry.payload [ none ↦ none | some text ↦ read text ]

-- The loop over the entries; `none` is an error of the database.
unfoldable pub stage :
    (Text → Option EventBatch) → (Text → ℤ) → List Entry → Staging → Option Staging
stage read clock [] s = some s
stage read clock (entry ∷ entries) s = elim (batch_of read entry) [
  | none ↦ stage read clock entries (record s { poison = s.poison ++ entry.id ∷ [] })
  | some batch ↦ elim (apply_batch clock batch s.tx) [
    | none ↦ none
    | some tx ↦ stage read clock entries (record s { staged = s.staged ++ entry.id ∷ []; tx = tx })
  ]
]

-- The variables of the loop, with the tables as they were committed.
pub record Writer : Type 0 where
  pub tables : Database
  pub batches_since_trim : ℕ

abbrev pub last {ℓ} : {A : Type ℓ} → List A → Option A
last [] = none
last (x ∷ []) = some x
last (x ∷ y ∷ xs) = last (y ∷ xs)

abbrev pub cut_effects : Text → Option Text → List Effect
cut_effects committed none = []
cut_effects committed (some book) = trim (earlier committed book) ∷ []

-- The counter after a round that staged something, and the trim where it is due.
unfoldable pub trim_step : Option Text → Option Text → ℕ → List Effect × ℕ
trim_step book none n = ([], n)
trim_step book (some committed) n =
    if leb trim_every_batches (add_u64 n 1)
    then (cut_effects committed book, 0)
    else ([], add_u64 n 1)

-- Without a staged entry the transaction is dropped.
unfoldable pub commit_effects : List Text → Database → List Effect
commit_effects [] tx = []
commit_effects (id ∷ ids) tx = commit tx ∷ []

abbrev pub kept_tables : List Text → Database → Database → Database
kept_tables [] old tx = old
kept_tables (id ∷ ids) old tx = tx

unfoldable pub finish : Option Text → Staging → Writer → List Effect × Writer
finish book s w =
    let (cuts, n) = trim_step book (last s.staged) w.batches_since_trim in
    (
      commit_effects s.staged s.tx ++ (map ack (s.staged ++ s.poison) ++ cuts),
      record { tables = kept_tables s.staged w.tables s.tx; batches_since_trim = n },
    )

-- One round. `none` is an error that ends the program, with nothing committed or acknowledged. The
-- argument `book` is the id that the API has published, if any.
unfoldable pub round :
    (Text → Option EventBatch)
    → (Text → ℤ)
    → Option Text
    → List Entry
    → Writer
    → Option (List Effect × Writer)
round read clock book entries w =
    elim (stage read clock entries (record { staged = []; poison = []; tx = w.tables })) [
      | none ↦ none
      | some s ↦ some (finish book s w)
    ]
