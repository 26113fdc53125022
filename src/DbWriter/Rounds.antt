-- ===== src/DbWriter/Rounds.antt =====
-- bin/db_writer.rs, `main`: what a round does, and in which order.
use cex_matching_engine.Prelude.{
  refl, ℕ, ◌≡◌, Option, none, some, List, [], ◌∷◌, ◌++◌, map, arith, inl, inr, ◌⊎◌, Option-cases,
  sym, ◌∙◌, ap, subst,
}
use cex_matching_engine.Prelude.Int.{ℤ}
use cex_matching_engine.Prelude.Text.{Text}
use cex_matching_engine.Command.{EventBatch}
use cex_matching_engine.Runtime.{Entry}
use cex_matching_engine.DbWriter.Tables.{Database}
use cex_matching_engine.DbWriter.Loop.{
  Effect, commit, ack, trim, Staging, stage, Writer, last, finish, commit_effects, kept_tables,
  trim_step, round,
}
use cex_matching_engine.DbWriter.Reading.{count, ids, tables_after, stage-Staged}

-- What the effects acknowledge, in order.
abbrev pub acked : List Effect → List Text
acked [] = []
acked (ack id ∷ effects) = id ∷ acked effects
acked (commit db ∷ effects) = acked effects
acked (trim id ∷ effects) = acked effects

abbrev pub NoCommit : List Effect → Type 0
NoCommit [] = Unit
NoCommit (commit db ∷ effects) = ⊥
NoCommit (ack id ∷ effects) = NoCommit effects
NoCommit (trim id ∷ effects) = NoCommit effects

-- Nothing is committed and the tables stay, or they are committed before anything else is done.
abbrev pub Committed : Database → Database → List Effect → Type 0
Committed old new effects =
    ((new ≡ old) × NoCommit effects)
    ⊎ ((rest : List Effect) × (effects ≡ commit new ∷ rest) × NoCommit rest)

acks : List Text → List Effect → List Effect
acks xs cuts = map ack xs ++ cuts

cut_effects-NoCommit :
    (book : Option Text) (staged : Option Text) (n : ℕ) → NoCommit (trim_step book staged n).0
unfolding trim_step
cut_effects-NoCommit book none n = tt
cut_effects-NoCommit none (some c) n = ground arith
cut_effects-NoCommit (some b) (some c) n = ground arith

acks-NoCommit : (xs : List Text) (cuts : List Effect) → NoCommit cuts → NoCommit (acks xs cuts)
unfolding acks
acks-NoCommit [] cuts h = h
acks-NoCommit (x ∷ xs) cuts h = acks-NoCommit xs cuts h

acked-trims :
    (book : Option Text) (staged : Option Text) (n : ℕ) → acked (trim_step book staged n).0 ≡ []
unfolding trim_step
acked-trims book none n = refl
acked-trims none (some c) n = ground arith
acked-trims (some b) (some c) n = ground arith

acked-acks : (xs : List Text) (cuts : List Effect) → acked cuts ≡ [] → acked (acks xs cuts) ≡ xs
unfolding acks
acked-acks [] cuts h = h
acked-acks (x ∷ xs) cuts h = ap (λ ys. x ∷ ys) (acked-acks xs cuts h)

acked-commit_effects :
    (xs : List Text) (tx : Database) (rest : List Effect)
    → acked (commit_effects xs tx ++ rest) ≡ acked rest
unfolding commit_effects
acked-commit_effects [] tx rest = refl
acked-commit_effects (x ∷ xs) tx rest = refl

commit_effects-Committed :
    (xs : List Text) (old tx : Database) (rest : List Effect)
    → NoCommit rest
    → Committed old (kept_tables xs old tx) (commit_effects xs tx ++ rest)
unfolding commit_effects
commit_effects-Committed [] old tx rest h = inl (refl, h)
commit_effects-Committed (x ∷ xs) old tx rest h = inr (rest, refl, h)

finish-acked :
    (book : Option Text) (s : Staging) (w : Writer)
    → acked (finish book s w).0 ≡ s.staged ++ s.poison
unfolding finish acks
finish-acked book s w =
    acked-commit_effects s.staged s.tx _
    ∙ acked-acks (s.staged ++ s.poison) (trim_step book (last s.staged) w.batches_since_trim).0
        (acked-trims book (last s.staged) w.batches_since_trim)

finish-Committed :
    (book : Option Text) (s : Staging) (w : Writer)
    → Committed w.tables (finish book s w).1.tables (finish book s w).0
unfolding finish acks
finish-Committed book s w = commit_effects-Committed s.staged w.tables s.tx _ (
    acks-NoCommit (s.staged ++ s.poison) (trim_step book (last s.staged) w.batches_since_trim).0
      (cut_effects-NoCommit book (last s.staged) w.batches_since_trim))

kept_tables-eq :
    (xs : List Text) (old tx : Database) → ((xs ≡ []) → tx ≡ old) → kept_tables xs old tx ≡ tx
kept_tables-eq [] old tx h = sym (h refl)
kept_tables-eq (x ∷ xs) old tx h = refl

finish-tables :
    (book : Option Text) (s : Staging) (w : Writer)
    → (finish book s w).1.tables ≡ kept_tables s.staged w.tables s.tx
unfolding finish
finish-tables book s w = refl

module _ (read : Text → Option EventBatch) (clock : Text → ℤ) (book : Option Text) where
  pub round-finish :
      (entries : List Entry) (w w' : Writer) (effects : List Effect)
      → round read clock book entries w ≡ some (effects, w')
      → (s : Staging) × (stage read clock entries
            (record { staged = []; poison = []; tx = w.tables })
          ≡ some s)
        × (finish book s w ≡ (effects, w'))
  unfolding round
  round-finish entries w w' effects e =
      elim (Option-cases
        (stage read clock entries (record { staged = []; poison = []; tx = w.tables }))) [
          | inl failed ↦ absurd (
              let no : ◌≡◌ {A = Option (List Effect × Writer)} none (some (effects, w')) =
                ground arith in
              cc)
          | inr (s, ran) ↦ (s, ran, ground arith)
        ]

  -- Where a round of the loop meets no error, the tables are those after the batches that can be
  -- read, in the order of their entries; they are committed before any entry is acknowledged, where
  -- they change; and every entry that was read is acknowledged as often as it was read, also one
  -- that cannot be parsed.
  pub round_commits :
      (entries : List Entry) (w w' : Writer) (effects : List Effect)
      → round read clock book entries w ≡ some (effects, w')
      → (tables_after read clock entries w.tables ≡ some w'.tables)
        × Committed w.tables w'.tables effects
        × ((id : Text) → count id (acked effects) ≡ count id (ids entries))
  round_commits entries w w' effects e =
      let (s, ran, ended) = round-finish entries w w' effects e in
      let (tables, counts, empty) = stage-Staged read clock entries _ s ran in
      let kept : (finish book s w).1.tables ≡ s.tx =
        finish-tables book s w ∙ kept_tables-eq s.staged w.tables s.tx (λ h. (empty h).1) in
      let same : w'.tables ≡ s.tx =
        sym (ap (λ (r : List Effect × Writer). r.1.tables) ended) ∙ kept in
      (
        tables ∙ ap some (sym same),
        subst (λ (r : List Effect × Writer). Committed w.tables r.1.tables r.0) ended
            (finish-Committed book s w),
        λ id.
            ap (λ (r : List Effect × Writer). count id (acked r.0)) (sym ended)
            ∙ ap (count id) (finish-acked book s w)
            ∙ omega (arith, counts id),
      )
