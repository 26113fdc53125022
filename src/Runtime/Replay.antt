-- ===== src/Runtime/Replay.antt =====
-- A replay goes through the engines of the live run.
use cex_matching_engine.Prelude.{
  ℕ, ◌≡◌, refl, sym, ap, ◌∙◌, arith, Option, none, some, List, [], ◌∷◌, Option-cases, inl, inr,
}
use cex_matching_engine.Prelude.Text.{Text}
use cex_matching_engine.Engine.State.{Engine}
use cex_matching_engine.Command.{CommandResponse, EventBatch}
use cex_matching_engine.Engine.Apply.{apply}
use cex_matching_engine.Runtime.{
  Codec, Entry, Worker, Effect, CommandEnvelope, envelope_of, handle, run_entries, replay,
  publish_all, answer_command, checkpoint, add_event,
}

answer_command-engine :
    (codec : Codec) (every : Option ℕ) (id : Text) (n : ℕ) (response : CommandResponse)
    (sent : List Effect) (e : Engine) (since : ℕ)
    → (answer_command codec every id n response sent e since).1.engine ≡ e
unfolding answer_command checkpoint
answer_command-engine codec none id n response sent e since = ground arith
answer_command-engine codec (some every) id n response sent e since = ground arith

pub publish_all-engine :
    (codec : Codec) (every : Option ℕ) (id : Text) (n : ℕ) (r : CommandResponse × Option EventBatch)
    (e : Engine) (since : ℕ)
    → (publish_all codec every id n r e since).1.engine ≡ e
unfolding publish_all
publish_all-engine codec every id n (response, none) e since =
    answer_command-engine codec every id n response [] e since
publish_all-engine codec every id n (response, some batch) e since =
    elim (Option-cases (codec.write_batch batch)) [
      | inl unwritten ↦ rw (unwritten, publish_all)
      | inr (json, written) ↦
          rw (written, publish_all)
            (answer_command-engine codec every id n response (add_event batch json ∷ []) e since)
    ]

module _ (codec : Codec) (every : Option ℕ) where
  -- A round whose entry holds no command leaves the engine.
  pub handle-unread :
      (entry : Entry) (w w' : Worker) (effects : List Effect)
      → envelope_of codec entry ≡ none
      → handle codec every entry w ≡ some (effects, w')
      → w'.engine ≡ w.engine
  unfolding handle
  handle-unread entry w w' effects unread h = ground arith

  -- Another round applies its command.
  pub handle-applied :
      (entry : Entry) (w w' : Worker) (effects : List Effect) (env : CommandEnvelope)
      → envelope_of codec entry ≡ some env
      → handle codec every entry w ≡ some (effects, w')
      → (r : CommandResponse × Option EventBatch) × (apply env.account_id env.client_order_id
            env.command w.engine
          ≡ some (r, w'.engine))
  unfolding handle
  handle-applied entry w w' effects env read h =
      elim (Option-cases (apply env.account_id env.client_order_id env.command w.engine)) [
        | inl panicked ↦ let no : handle codec every entry w ≡ none = ground arith in cc
        | inr ((r, e), applied) ↦
            let same : publish_all codec every entry.id env.correlation_id r e w.since_snapshot
                ≡ (effects, w') =
              ground arith in
            let kept =
              publish_all-engine codec every entry.id env.correlation_id r e w.since_snapshot in
            (
              r,
              applied
                  ∙ ap (λ x. some (r, x))
                      (sym kept ∙ ap (λ (x : List Effect × Worker). x.1.engine) same),
            )
      ]

  replay-cons :
      (entry : Entry) (entries : List Entry) (w w' : Worker) (effects : List Effect)
      (last : Option Text)
      → handle codec every entry w ≡ some (effects, w')
      → (last' : Option Text) × (replay codec (entry ∷ entries) last w.engine
          ≡ replay codec entries last' w'.engine)
  unfolding replay
  replay-cons entry entries w w' effects last h = elim (Option-cases (envelope_of codec entry)) [
    | inl unread ↦ (
      last,
      rw (unread, replay)
          (ap (replay codec entries last) (sym (handle-unread entry w w' effects unread h))),
    )
    | inr (env, read) ↦
        let (r, applied) = handle-applied entry w w' effects env read h in
        (some entry.id, rw (read, applied, replay) refl)
  ]

  pub run_entries-replay :
      (entries : List Entry) (w w' : Worker) (effects : List Effect) (last : Option Text)
      → run_entries codec every entries w ≡ some (effects, w')
      → (last' : Option Text) × (replay codec entries last w.engine ≡ some (w'.engine, last'))
  unfolding run_entries replay
  run_entries-replay [] w w' effects last h = (last, ground arith)
  run_entries-replay (entry ∷ entries) w w' effects last h =
      elim (Option-cases (handle codec every entry w)) [
        | inl panicked ↦
            let no : run_entries codec every (entry ∷ entries) w ≡ none = ground arith in cc
        | inr ((first, w₁), handled) ↦ elim (Option-cases (run_entries codec every entries w₁)) [
          | inl panicked ↦
              let no : run_entries codec every (entry ∷ entries) w ≡ none = ground arith in cc
          | inr ((later, w₂), ran) ↦
              let same : w₂ ≡ w' = ground arith in
              let (l₁, e₁) = replay-cons entry entries w w₁ first last handled in
              let (l₂, e₂) =
                run_entries-replay entries w₁ w' later l₁ (ran ∙ ap (λ x. some (later, x)) same) in
              (l₂, e₁ ∙ e₂)
        ]
      ]
