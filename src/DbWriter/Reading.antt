-- ===== src/DbWriter/Reading.antt =====
-- bin/db_writer.rs, `main`: the loop over the entries that a round read.
use cex_matching_engine.Prelude.{
  ℕ, ◌+◌, ◌≡◌, ◌≢◌, Option, none, some, List, [], ◌∷◌, ◌++◌, if◌then◌else◌, arith, inl, inr,
  Option-cases,
}
use cex_matching_engine.Prelude.Int.{ℤ}
use cex_matching_engine.Prelude.Text.{Text, text_eqb}
use cex_matching_engine.Command.{EventBatch}
use cex_matching_engine.Runtime.{Entry}
use cex_matching_engine.DbWriter.Tables.{Database, apply_batch}
use cex_matching_engine.DbWriter.Loop.{Staging, batch_of, stage}

abbrev pub count : Text → List Text → ℕ
count id [] = 0
count id (x ∷ xs) = (if text_eqb id x then 1 else 0) + count id xs

abbrev pub ids : List Entry → List Text
ids [] = []
ids (entry ∷ entries) = entry.id ∷ ids entries

-- The tables after the batches that can be read, in the order of the entries.
abbrev pub tables_after :
    (Text → Option EventBatch) → (Text → ℤ) → List Entry → Database → Option Database
tables_after read clock [] db = some db
tables_after read clock (entry ∷ entries) db = elim (batch_of read entry) [
  | none ↦ tables_after read clock entries db
  | some batch ↦ elim (apply_batch clock batch db) [
    | none ↦ none
    | some db' ↦ tables_after read clock entries db'
  ]
]

pub count-append : (id : Text) (xs ys : List Text) → count id (xs ++ ys) ≡ count id xs + count id ys
count-append id [] ys = omega arith
count-append id (x ∷ xs) ys = omega (arith, count-append id xs ys)

snoc-ne-nil : (xs : List Text) (x : Text) → xs ++ x ∷ [] ≢ []
snoc-ne-nil [] x e = cc
snoc-ne-nil (y ∷ ys) x e = cc

module _ (read : Text → Option EventBatch) (clock : Text → ℤ) where
  -- What `stage` adds to what it began with.
  abbrev pub Staged : List Entry → Staging → Staging → Type 0
  Staged entries s s' =
      (tables_after read clock entries s.tx ≡ some s'.tx)
      × ((id : Text)
          → count id (s'.staged ++ s'.poison)
            ≡ count id (s.staged ++ s.poison) + count id (ids entries))
      × ((s'.staged ≡ []) → (s.staged ≡ []) × (s'.tx ≡ s.tx))

  pub stage-Staged :
      (entries : List Entry) (s s' : Staging)
      → stage read clock entries s ≡ some s'
      → Staged entries s s'
  unfolding stage
  stage-Staged [] s s' e = (ground arith, λ id. ground arith, λ h. ground arith)
  stage-Staged (entry ∷ entries) s s' e = elim (Option-cases (batch_of read entry)) [
    | inl unreadable ↦
        let rest : stage read clock entries (record s { poison = s.poison ++ entry.id ∷ [] })
            ≡ some s' =
          ground arith in
        let (tables, counts, empty) = stage-Staged entries _ s' rest in
        (
          rw (unreadable, tables_after) tables,
          λ id. omega (
            arith,
            counts id,
            count-append id s.staged s.poison,
            count-append id s.staged (s.poison ++ entry.id ∷ []),
            count-append id s.poison (entry.id ∷ []),
          ),
          empty,
        )
    | inr (batch, readable) ↦ elim (Option-cases (apply_batch clock batch s.tx)) [
      | inl failed ↦ absurd (let no : ◌≡◌ {A = Option Staging} none (some s') = ground arith in cc)
      | inr (tx, applied) ↦
          let rest : stage read clock entries
                (record s { staged = s.staged ++ entry.id ∷ []; tx = tx })
              ≡ some s' =
            ground arith in
          let (tables, counts, empty) = stage-Staged entries _ s' rest in
          (
            rw (readable, tables_after) (rw (applied, tables_after) tables),
            λ id. omega (
              arith,
              counts id,
              count-append id s.staged s.poison,
              count-append id (s.staged ++ entry.id ∷ []) s.poison,
              count-append id s.staged (entry.id ∷ []),
            ),
            λ h. absurd (snoc-ne-nil s.staged entry.id (empty h).0),
          )
    ]
  ]
