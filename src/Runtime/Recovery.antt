-- ===== src/Runtime/Recovery.antt =====
-- Recovery: from a snapshot as well as from the beginning it ends in the engine of the live run.
use cex_matching_engine.Prelude.{
  ℕ, ◌≡◌, refl, sym, ap, ◌∙◌, arith, Option, none, some, List, [], ◌∷◌, ◌++◌, subst, Option-cases,
  inl, inr,
}
use cex_matching_engine.Prelude.Text.{Text}
use cex_matching_engine.Engine.State.{Engine, Limits}
use cex_matching_engine.Engine.Apply.{apply}
use cex_matching_engine.Runtime.{
  Codec, Entry, Worker, Effect, envelope_of, run_entries, replay, recover, restore, range_start,
  stored,
}
use cex_matching_engine.Runtime.Clean.{IsClean, stored-eq, apply-IsClean}
use cex_matching_engine.Runtime.Replay.{run_entries-replay}

abbrev pub engine_of : Option (Engine × Option Text) → Option Engine
engine_of none = none
engine_of (some (e, last)) = some e

module _ (codec : Codec) where
  replay-append :
      (xs ys : List Entry) (last : Option Text) (e : Engine) (r : Engine × Option Text)
      → replay codec xs last e ≡ some r
      → replay codec (xs ++ ys) last e ≡ replay codec ys r.1 r.0
  unfolding replay
  replay-append [] ys last e r h =
      let same : (e, last) ≡ r = ground arith in
      ap (λ (x : Engine × Option Text). replay codec ys x.1 x.0) same
  replay-append (x ∷ xs) ys last e r h = elim (Option-cases (envelope_of codec x)) [
    | inl unread ↦ rw (unread, replay) (replay-append xs ys last e r (ground arith))
    | inr (env, read) ↦
        elim (Option-cases (apply env.account_id env.client_order_id env.command e)) [
          | inl panicked ↦ let no : replay codec (x ∷ xs) last e ≡ none = ground arith in cc
          | inr ((a, e₁), applied) ↦
              rw (read, applied, replay) (replay-append xs ys (some x.id) e₁ r (ground arith))
        ]
  ]

  -- The id of the last entry before a replay has no bearing on its engine.
  replay-engine :
      (xs : List Entry) (last last' : Option Text) (e : Engine)
      → engine_of (replay codec xs last e) ≡ engine_of (replay codec xs last' e)
  unfolding replay
  replay-engine [] last last' e = refl
  replay-engine (x ∷ xs) last last' e = elim (Option-cases (envelope_of codec x)) [
    | inl unread ↦ rw (unread, replay) (replay-engine xs last last' e)
    | inr (env, read) ↦
        elim (Option-cases (apply env.account_id env.client_order_id env.command e)) [
          | inl panicked ↦ rw (read, panicked, replay)
          | inr ((a, e₁), applied) ↦ rw (read, applied, replay)
        ]
  ]

  replay-IsClean :
      (l : Limits) (xs : List Entry) (last : Option Text) (e : Engine) (r : Engine × Option Text)
      → replay codec xs last e ≡ some r
      → IsClean l e
      → IsClean l r.0
  unfolding replay
  replay-IsClean l [] last e r h v = let same : e ≡ r.0 = ground arith in subst (IsClean l) same v
  replay-IsClean l (x ∷ xs) last e r h v = elim (Option-cases (envelope_of codec x)) [
    | inl unread ↦ replay-IsClean l xs last e r (ground arith) v
    | inr (env, read) ↦
        elim (Option-cases (apply env.account_id env.client_order_id env.command e)) [
          | inl panicked ↦ let no : replay codec (x ∷ xs) last e ≡ none = ground arith in cc
          | inr ((a, e₁), applied) ↦
              replay-IsClean l xs (some x.id) e₁ r (ground arith)
                (apply-IsClean l env.account_id env.client_order_id env.command e a e₁ applied v)
        ]
  ]

  -- Of a clean engine a restored snapshot is that engine.
  restore-stored :
      (id : Text) (e₀ e : Engine) → IsClean e₀.limits e → restore (some (id, stored e)) e₀ ≡ e
  unfolding restore
  restore-stored id e₀ e v =
      ap (λ (x : Engine). record x { limits = e₀.limits }) (stored-eq e₀.limits e v) ∙ λ i.
      record e { limits = sym v.same_limits i }

-- Where the loop has run over the entries of the stream without a panic, recovery from the beginning
-- ends in the engine of the loop.
pub recover_run :
    (codec : Codec) (every : Option ℕ) (xs : List Entry) (e₀ : Engine) (since : ℕ)
    (effects : List Effect) (w : Worker) (xrange : Option Text → List Entry)
    → run_entries codec every xs (record { engine = e₀; since_snapshot = since })
      ≡ some (effects, w)
    → xrange none ≡ xs
    → engine_of (recover codec xrange none e₀) ≡ some w.engine
unfolding recover restore range_start
recover_run codec every xs e₀ since effects w xrange ran all =
    rw all (ap engine_of (run_entries-replay codec every xs _ w effects none ran).1)

-- Recovery from the snapshot that the loop wrote behind the entries `xs` ends in the engine that a
-- recovery from the beginning ends in, where the loop started from a clean engine with the limits
-- of this process; and a panic in the one is a panic in the other.
pub recover_snapshot :
    (codec : Codec) (every : Option ℕ) (xs ys : List Entry) (id : Text) (e₀ : Engine) (since : ℕ)
    (effects : List Effect) (w : Worker) (xrange : Option Text → List Entry)
    → IsClean e₀.limits e₀
    → run_entries codec every xs (record { engine = e₀; since_snapshot = since })
      ≡ some (effects, w)
    → xrange none ≡ xs ++ ys
    → xrange (some id) ≡ ys
    → engine_of (recover codec xrange (some (id, stored w.engine)) e₀)
      ≡ engine_of (recover codec xrange none e₀)
unfolding recover range_start restore
recover_snapshot codec every xs ys id e₀ since effects w xrange clean ran all behind =
    let (last, live) = run_entries-replay codec every xs _ w effects none ran in
    let clean' = replay-IsClean codec e₀.limits xs none e₀ (w.engine, last) live clean in
    rw (all, behind, restore-stored codec id e₀ w.engine clean')
      (replay-engine codec ys none last w.engine
        ∙ ap engine_of (sym (replay-append codec xs ys none e₀ (w.engine, last) live)))
