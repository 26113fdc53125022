-- ===== src/DbWriter/Trims.antt =====
-- bin/db_writer.rs, `main`: how far a round has the stream trimmed.
use cex_matching_engine.Prelude.{
  refl, ℕ, ◌+◌, ◌<◌, ◌≤◌, ◌≡◌, Option, none, some, List, [], ◌∷◌, ◌++◌, map, arith, inl, inr,
  Option-cases, Bool-cases, All, All-append, sym, subst, leb, add_u64,
}
use cex_matching_engine.Prelude.Int.{ℤ}
use cex_matching_engine.Prelude.Text.{Text, text_eqb_refl}
use cex_matching_engine.Command.{EventBatch}
use cex_matching_engine.Snapshot.{earlier-AtMost, AtMost, StreamId, parse_id}
use cex_matching_engine.Runtime.{Entry}
use cex_matching_engine.DbWriter.Tables.{Database}
use cex_matching_engine.DbWriter.Loop.{
  Effect, commit, ack, trim, Staging, Writer, last, finish, commit_effects, trim_step, round,
  trim_every_batches,
}
use cex_matching_engine.DbWriter.Reading.{count, ids, stage-Staged, count-append}
use cex_matching_engine.DbWriter.Rounds.{round-finish}

-- A cut lies behind neither the committed entry nor the id that the API has published.
abbrev pub CutBefore : Text → Text → Text → Type 0
CutBefore cut committed book =
    (x y : StreamId)
    → parse_id committed ≡ some x
    → parse_id book ≡ some y
    → (z : StreamId) × (parse_id cut ≡ some z) × AtMost z x × AtMost z y

-- An effect that trims is one of these, for an entry of the round.
abbrev pub SafeCut : List Text → Option Text → ℕ → Effect → Type 0
SafeCut entry_ids book n (trim cut) =
    (committed published : Text) × (0 < count committed entry_ids)
    × (book ≡ some published)
    × (trim_every_batches ≤ n + 1)
    × CutBefore cut committed published
SafeCut entry_ids book n (commit db) = Unit
SafeCut entry_ids book n (ack id) = Unit

count-last : (c : Text) (xs : List Text) → last xs ≡ some c → 0 < count c xs
count-last c [] e = cc
count-last c (x ∷ []) e =
    let same : x ≡ c = ground arith in
    let found = text_eqb_refl c in subst (λ y. 0 < count c (y ∷ [])) (sym same) (ground arith)
count-last c (x ∷ y ∷ xs) e = omega (arith, count-last c (y ∷ xs) e)

ack-SafeCut :
    (entry_ids : List Text) (book : Option Text) (n : ℕ) (xs : List Text)
    → All (SafeCut entry_ids book n) (map ack xs)
ack-SafeCut entry_ids book n [] = tt
ack-SafeCut entry_ids book n (x ∷ xs) = (tt, ack-SafeCut entry_ids book n xs)

commit_effects-SafeCut :
    (entry_ids : List Text) (book : Option Text) (n : ℕ) (xs : List Text) (tx : Database)
    → All (SafeCut entry_ids book n) (commit_effects xs tx)
unfolding commit_effects
commit_effects-SafeCut entry_ids book n [] tx = tt
commit_effects-SafeCut entry_ids book n (x ∷ xs) tx = (tt, tt)

-- The counter stays below the limit, and what is trimmed is due.
trim_step-SafeCut :
    (entry_ids : List Text) (book staged : Option Text) (n : ℕ)
    → ((c : Text) → staged ≡ some c → 0 < count c entry_ids)
    → n < trim_every_batches
    → All (SafeCut entry_ids book n) (trim_step book staged n).0
      × ((trim_step book staged n).1 < trim_every_batches)
unfolding trim_step add_u64
trim_step-SafeCut entry_ids book none n found h = (tt, h)
trim_step-SafeCut entry_ids book (some c) n found h =
    elim (Bool-cases (leb trim_every_batches (add_u64 n 1))) [
      | inr early ↦ rw early (tt, ground arith)
      | inl due ↦ elim (Option-cases book) [
        | inl unpublished ↦ rw (due, unpublished) (tt, ground arith)
        | inr (b, published) ↦
            rw (due, published)
              (
                (
                  (
                    c,
                    b,
                    found c refl,
                    refl,
                    ground arith,
                    λ x y ex ey.
                        let (z, ez, le_x, le_y, chosen) = earlier-AtMost c b x y ex ey in
                        (z, ez, le_x, le_y),
                  ),
                  tt,
                ),
                ground arith,
              )
      ]
    ]

finish-SafeCut :
    (entry_ids : List Text) (book : Option Text) (s : Staging) (w : Writer)
    → All
        (SafeCut entry_ids book w.batches_since_trim)
        (trim_step book (last s.staged) w.batches_since_trim).0
      × ((trim_step book (last s.staged) w.batches_since_trim).1 < trim_every_batches)
    → All (SafeCut entry_ids book w.batches_since_trim) (finish book s w).0
      × ((finish book s w).1.batches_since_trim < trim_every_batches)
unfolding finish
finish-SafeCut entry_ids book s w (cuts, counter) =
    let safe = SafeCut entry_ids book w.batches_since_trim in
    (
      All-append safe (commit_effects s.staged s.tx) _
          (commit_effects-SafeCut entry_ids book w.batches_since_trim s.staged s.tx)
          (All-append safe (map ack (s.staged ++ s.poison)) _
            (ack-SafeCut entry_ids book w.batches_since_trim (s.staged ++ s.poison)) cuts),
      counter,
    )

module _ (read : Text → Option EventBatch) (clock : Text → ℤ) (book : Option Text) where
  -- Where a round meets no error and the counter is below its limit, the counter stays below it, and
  -- a trim is asked for only where the round brings the count to the limit and the API has
  -- published an id: it cuts at most at an entry that was read and at most at the published id,
  -- where those ids parse.
  pub round_trims :
      (entries : List Entry) (w w' : Writer) (effects : List Effect)
      → w.batches_since_trim < trim_every_batches
      → round read clock book entries w ≡ some (effects, w')
      → All (SafeCut (ids entries) book w.batches_since_trim) effects
        × (w'.batches_since_trim < trim_every_batches)
  round_trims entries w w' effects h e =
      let (s, ran, ended) = round-finish read clock book entries w w' effects e in
      let (tables, counts, empty) = stage-Staged read clock entries _ s ran in
      let (cuts, counter) =
        trim_step-SafeCut (ids entries) book (last s.staged) w.batches_since_trim
          (λ c found.
            omega (arith, counts c, count-append c s.staged s.poison, count-last c s.staged found))
          h in
      subst
        (λ (r : List Effect × Writer).
          All (SafeCut (ids entries) book w.batches_since_trim) r.0
          × (r.1.batches_since_trim < trim_every_batches))
        ended (finish-SafeCut (ids entries) book s w (cuts, counter))
