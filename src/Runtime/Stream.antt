-- ===== src/Runtime/Stream.antt =====
-- What the loop puts on the streams: batches without a gap, and a trim only behind its snapshot.
use cex_matching_engine.Prelude.{
  ℕ, ◌≡◌, refl, sym, Option, none, some, List, [], ◌∷◌, ◌++◌, subst, Option-cases, inl, inr,
  add_u64, Bool-cases, leb, arith,
}
use cex_matching_engine.Prelude.Text.{Text}
use cex_matching_engine.Command.{CommandResponse, EventBatch}
use cex_matching_engine.Engine.State.{Engine}
use cex_matching_engine.Engine.Retry.{Numbered, apply-Numbered}
use cex_matching_engine.Runtime.{
  Codec, Effect, publish_all, answer_command, checkpoint, ack, add_event, publish, save, trim,
  handle, run_entries, Entry, Worker, envelope_of, apply,
}
use cex_matching_engine.Engine.Apply.{apply}
use cex_matching_engine.Runtime.Replay.{publish_all-engine}

-- The numbers of the batches that the effects add go on from `n` without a gap, up to `m`.
abbrev pub Goes : ℕ → List Effect → ℕ → Type 0
Goes n [] m = n ≡ m
Goes n (add_event batch json ∷ effects) m = (batch.seq ≡ n) × Goes (add_u64 n 1) effects m
Goes n (_ ∷ effects) m = Goes n effects m

Goes-append : (n m k : ℕ) (xs ys : List Effect) → Goes n xs m → Goes m ys k → Goes n (xs ++ ys) k
Goes-append n m k [] ys h g = subst (λ x. Goes x ys k) (sym h) g
Goes-append n m k (add_event batch json ∷ xs) ys h g =
    (h.0, Goes-append (add_u64 n 1) m k xs ys h.1 g)
Goes-append n m k (ack id ∷ xs) ys h g = Goes-append n m k xs ys h g
Goes-append n m k (publish json ∷ xs) ys h g = Goes-append n m k xs ys h g
Goes-append n m k (save id e ∷ xs) ys h g = Goes-append n m k xs ys h g
Goes-append n m k (trim id ∷ xs) ys h g = Goes-append n m k xs ys h g

-- The serialisation of a batch does not fail.
abbrev pub WritesBatches : Codec → Type 0
WritesBatches codec = (b : EventBatch) → (json : Text) × (codec.write_batch b ≡ some json)

module _ (codec : Codec) (every : Option ℕ) where
  checkpoint-Goes :
      (period : Option ℕ) (id : Text) (e : Engine) (since n : ℕ)
      → Goes n (checkpoint codec period id e since).0 n
  unfolding checkpoint
  checkpoint-Goes none id e since n = refl
  checkpoint-Goes (some k) id e since n = elim (Bool-cases (leb k since)) [
    | inl due ↦ rw due (elim (Bool-cases (codec.save_succeeds id e)) [
      | inl saved ↦ rw saved
      | inr failed ↦ rw failed
    ])
    | inr early ↦ rw early
  ]

  answer_command-Goes :
      (id : Text) (k : ℕ) (response : CommandResponse) (sent : List Effect) (e : Engine)
      (since n m : ℕ)
      → Goes n sent m
      → Goes n (answer_command codec every id k response sent e since).0 m
  unfolding answer_command
  answer_command-Goes id k response sent e since n m h =
      elim (Option-cases (codec.write_response k response)) [
        | inl unwritten ↦
            rw (unwritten, answer_command) (Goes-append n m m sent (ack id ∷ []) h refl)
        | inr (json, written) ↦
            rw (written, answer_command)
              (Goes-append n m m sent
                (publish json ∷ ack id ∷ (checkpoint codec every id e (add_u64 since 1)).0) h
                (checkpoint-Goes every id e (add_u64 since 1) m))
      ]

  publish_all-Goes :
      (id : Text) (k : ℕ) (response : CommandResponse) (b : Option EventBatch) (e e' : Engine)
      (since : ℕ)
      → WritesBatches codec
      → Numbered e b e'
      → Goes e.next_seq (publish_all codec every id k (response, b) e' since).0 e'.next_seq
  unfolding publish_all
  publish_all-Goes id k response none e e' since writes h =
      answer_command-Goes id k response [] e' since e.next_seq e'.next_seq (sym h)
  publish_all-Goes id k response (some b) e e' since writes h =
      let (json, written) = writes b in
      rw (written, publish_all)
        (answer_command-Goes id k response (add_event b json ∷ []) e' since e.next_seq e'.next_seq
          (h.0, sym h.1))

  handle-Goes :
      (entry : Entry) (w w' : Worker) (effects : List Effect)
      → WritesBatches codec
      → handle codec every entry w ≡ some (effects, w')
      → Goes w.engine.next_seq effects w'.engine.next_seq
  unfolding handle
  handle-Goes entry w w' effects writes h = elim (Option-cases (envelope_of codec entry)) [
    | inl unread ↦
        let same : (ack entry.id ∷ [], w) ≡ (effects, w') = ground arith in
        subst (λ (x : List Effect × Worker). Goes w.engine.next_seq x.0 x.1.engine.next_seq) same
          refl
    | inr (env, read) ↦
        elim (Option-cases (apply env.account_id env.client_order_id env.command w.engine)) [
          | inl panicked ↦ let no : handle codec every entry w ≡ none = ground arith in cc
          | inr (((response, b), e), applied) ↦
              let out =
                publish_all codec every entry.id env.correlation_id (response, b) e
                  w.since_snapshot in
              let same : out ≡ (effects, w') = ground arith in
              let kept =
                publish_all-engine codec every entry.id env.correlation_id (response, b) e
                  w.since_snapshot in
              let numbered =
                apply-Numbered env.account_id env.client_order_id env.command w.engine (response, b)
                  e applied in
              subst (λ (x : List Effect × Worker). Goes w.engine.next_seq x.0 x.1.engine.next_seq)
                same
                (subst (λ (x : Engine). Goes w.engine.next_seq out.0 x.next_seq) (sym kept)
                  (publish_all-Goes entry.id env.correlation_id response b w.engine e
                    w.since_snapshot writes numbered))
        ]
  ]

  -- The batches that a run of the loop puts on the stream of events carry the numbers from the
  -- engine's next one on, without a gap or a repeat, up to the next number of the engine that the run
  -- ends in, where the serialisation of a batch does not fail.
  pub run_entries-Goes :
      (entries : List Entry) (w w' : Worker) (effects : List Effect)
      → WritesBatches codec
      → run_entries codec every entries w ≡ some (effects, w')
      → Goes w.engine.next_seq effects w'.engine.next_seq
  unfolding run_entries
  run_entries-Goes [] w w' effects writes h =
      let same : ([], w) ≡ (effects, w') = ground arith in
      subst (λ (x : List Effect × Worker). Goes w.engine.next_seq x.0 x.1.engine.next_seq) same refl
  run_entries-Goes (entry ∷ entries) w w' effects writes h =
      elim (Option-cases (handle codec every entry w)) [
        | inl panicked ↦
            let no : run_entries codec every (entry ∷ entries) w ≡ none = ground arith in cc
        | inr ((first, w₁), handled) ↦ elim (Option-cases (run_entries codec every entries w₁)) [
          | inl panicked ↦
              let no : run_entries codec every (entry ∷ entries) w ≡ none = ground arith in cc
          | inr ((later, w₂), ran) ↦
              let same : (first ++ later, w₂) ≡ (effects, w') = ground arith in
              subst (λ (x : List Effect × Worker). Goes w.engine.next_seq x.0 x.1.engine.next_seq)
                same
                (Goes-append w.engine.next_seq w₁.engine.next_seq w₂.engine.next_seq first later
                  (handle-Goes entry w w₁ first writes handled)
                  (run_entries-Goes entries w₁ w₂ later writes ran))
        ]
      ]
