-- ===== src/Api/Changes.antt =====
-- bin/api/main.rs: what a step can do to one request and to its entry in the map of waiters.
use cex_matching_engine.Prelude.{
  refl, true, false, ℕ, ◌≡◌, ◌≢◌, ◌⊎◌, Option, none, some, arith, nat_eqb, nat_eqb_iff, nat_eq,
  Bool-cases, Option-cases, inl, inr, sym, ap, ◌∙◌, subst,
}
use cex_matching_engine.Prelude.HashMap
use cex_matching_engine.Prelude.HashMap.{HashMap}
use cex_matching_engine.Api.{ApiError}
use cex_matching_engine.Api.Auth.{done, failed}
use cex_matching_engine.Api.Pending.{
  ResponseEnvelope, logging, waiting, expired, finished, dropped, Request, Desk, register, logged,
  give_up, receive, expire, abandon, send, put, deliver, Step, registers, is_logged, logging_fails,
  receives, expires, clears, drops, delivers,
}
use cex_matching_engine.Api.Replies.{IsSound}

-- The request `t`, which is `s` before a step, and where its entry stands after it.
pub data Change (d e : Desk) (t : ℕ) (s : Request) : Type 0 where
  untouched :
      HashMap.get t e.requests ≡ some s
      → (HashMap.get s.correlation_id d.pending ≡ none
          → HashMap.get s.correlation_id e.pending ≡ none)
      → Change d e t s
  works : s.phase ≡ logging → Change d e t s
  answers :
      (reply : ResponseEnvelope)
      → s.phase ≡ waiting
      → s.inbox ≡ some reply
      → HashMap.get t e.requests ≡ some (record s { phase = finished (done reply.response) })
      → e.pending ≡ d.pending
      → Change d e t s
  tires : s.phase ≡ waiting → s.inbox ≡ none → Change d e t s
  ends :
      s.phase ≡ expired
      → HashMap.get t e.requests ≡ some (record s { phase = finished (failed ApiError.timed_out) })
      → HashMap.get s.correlation_id e.pending ≡ none
      → Change d e t s
  leaves :
      (s.phase ≡ logging) ⊎ (s.phase ≡ waiting)
      → HashMap.get t e.requests ≡ some (record s { phase = dropped })
      → e.pending ≡ d.pending
      → Change d e t s
  hears :
      (reply : ResponseEnvelope)
      → HashMap.get s.correlation_id d.pending ≡ some t
      → HashMap.get t e.requests ≡ some (send reply s)
      → Change d e t s

get_same :
    (t : ℕ) (r : Request) (requests : HashMap ℕ Request)
    → HashMap.get t (HashMap.insert t r requests) ≡ some r
get_same t r requests = ground (arith, HashMap.get-insert t t r requests, nat_eqb_iff t t)

get_other :
    (t u : ℕ) (r : Request) (requests : HashMap ℕ Request)
    → nat_eqb t u ≡ false
    → HashMap.get t (HashMap.insert u r requests) ≡ HashMap.get t requests
get_other t u r requests h = HashMap.get-insert t u r requests ∙ rw h refl

remove-none :
    (id k : ℕ) (pending : HashMap ℕ ℕ)
    → HashMap.get id pending ≡ none
    → HashMap.get id (HashMap.remove k pending) ≡ none
remove-none id k pending h = ground (arith, HashMap.get-remove id k pending)

remove_same : (id : ℕ) (pending : HashMap ℕ ℕ) → HashMap.get id (HashMap.remove id pending) ≡ none
remove_same id pending = ground (arith, HashMap.get-remove id id pending, nat_eqb_iff id id)

module _ (d : Desk) (sound : IsSound d) (t : ℕ) (s : Request)
    (there : HashMap.get t d.requests ≡ some s) where
  -- Two requests under one number are one.
  same_request :
      (u : ℕ) (r : Request) → nat_eqb t u ≡ true → HashMap.get u d.requests ≡ some r → r ≡ s
  same_request u r eq here =
      let same = ap (λ (x : ℕ). HashMap.get x d.requests) ((nat_eqb_iff t u).0 eq) in ground arith

  -- A step of the task `u`, which changes its own request.
  own_step :
      (e : Desk) (u : ℕ) (r r' : Request)
      → HashMap.get u d.requests ≡ some r
      → e.requests ≡ HashMap.insert u r' d.requests
      → (HashMap.get s.correlation_id d.pending ≡ none
          → HashMap.get s.correlation_id e.pending ≡ none)
      → (r ≡ s → u ≡ t → HashMap.get t e.requests ≡ some r' → Change d e t s)
      → Change d e t s
  own_step e u r r' here changed kept mine = elim (Bool-cases (nat_eqb t u)) [
    | inr other ↦
        untouched (ap (HashMap.get t) changed ∙ get_other t u r' d.requests other ∙ there) kept
    | inl own ↦ mine (same_request u r own here) (sym ((nat_eqb_iff t u).0 own)) (
        ap (HashMap.get t) changed
        ∙ ap (λ (x : ℕ). HashMap.get t (HashMap.insert x r' d.requests))
            (sym ((nat_eqb_iff t u).0 own))
        ∙ get_same t r' d.requests)
  ]

  register-Change :
      (u id : ℕ)
      → HashMap.get u d.requests ≡ none
      → ((v : ℕ) (r : Request) → HashMap.get v d.requests ≡ some r → r.correlation_id ≢ id)
      → Change d (register u id d) t s
  unfolding register
  register-Change u id new unused =
      let apart = unused t s there in
      untouched
        (elim (Bool-cases (nat_eqb t u)) [
          | inr other ↦ get_other t u _ d.requests other ∙ there
          | inl own ↦
              let same = ap (λ (x : ℕ). HashMap.get x d.requests) ((nat_eqb_iff t u).0 own) in
              let clash : ◌≡◌ {A = Option Request} (some s) none = sym there ∙ same ∙ new in
              cc clash
        ])
        (λ free. ground (
          arith,
          HashMap.get-insert s.correlation_id id u d.pending,
          nat_eqb_iff s.correlation_id id,
        ))

  deliver-Change : (reply : ResponseEnvelope) → Change d (deliver reply d) t s
  unfolding deliver
  deliver-Change reply = elim (Option-cases (HashMap.get reply.correlation_id d.pending)) [
    | inl unknown ↦
        let lost : deliver reply d ≡ d = rw (unknown, deliver) refl in
        subst (λ (x : Desk). Change d x t s) (sym lost) (untouched there (λ free. free))
    | inr (u, entry) ↦
        let (r, here, is_id, unfinished, empty) = sound.owned reply.correlation_id u entry in
        let e : Desk = record {
          pending = HashMap.remove reply.correlation_id d.pending;
          requests = HashMap.insert u (send reply r) d.requests;
        } in
        let delivered : deliver reply d ≡ e = rw (entry, deliver, here) refl in
        subst (λ (x : Desk). Change d x t s) (sym delivered)
          (own_step e u r (send reply r) here refl
            (remove-none s.correlation_id reply.correlation_id d.pending)
            (λ is own at.
              hears reply
                (ap (λ (k : ℕ). HashMap.get k d.pending)
                    (ap (λ (x : Request). x.correlation_id) (sym is) ∙ is_id)
                  ∙ entry
                  ∙ ap some own)
                (at ∙ ap (λ (x : Request). some (send reply x)) is)))
  ]

  pub Step-Change : {e : Desk} → Step d e → Change d e t s
  unfolding put logged give_up receive expire abandon
  Step-Change (registers u id new unused) = register-Change u id new unused
  Step-Change (is_logged u r here at) =
      own_step (logged u r d) u r (record r { phase = waiting }) here refl (λ free. free)
        (λ is own found. works (ap (λ (x : Request). x.phase) (sym is) ∙ at))
  Step-Change (logging_fails u r message here at) =
      own_step (give_up u r (ApiError.internal message) d) u r
        (record r { phase = finished (failed (ApiError.internal message)) }) here refl
        (remove-none s.correlation_id r.correlation_id d.pending)
        (λ is own found. works (ap (λ (x : Request). x.phase) (sym is) ∙ at))
  Step-Change (receives u r reply here at mail) =
      own_step (receive u r reply d) u r (record r { phase = finished (done reply.response) }) here
        refl (λ free. free)
        (λ is own found.
          answers reply (ap (λ (x : Request). x.phase) (sym is) ∙ at)
            (ap (λ (x : Request). x.inbox) (sym is) ∙ mail)
            (found
              ∙ ap (λ (x : Request). some (record x { phase = finished (done reply.response) })) is)
            refl)
  Step-Change (expires u r here at empty) =
      own_step (expire u r d) u r (record r { phase = expired }) here refl (λ free. free)
        (λ is own found.
          tires (ap (λ (x : Request). x.phase) (sym is) ∙ at)
            (ap (λ (x : Request). x.inbox) (sym is) ∙ empty))
  Step-Change (clears u r here at) =
      let over = finished (failed ApiError.timed_out) in
      own_step (give_up u r ApiError.timed_out d) u r (record r { phase = over }) here refl
        (remove-none s.correlation_id r.correlation_id d.pending)
        (λ is own found.
          ends (ap (λ (x : Request). x.phase) (sym is) ∙ at)
            (found ∙ ap (λ (x : Request). some (record x { phase = over })) is)
            (ap
                (λ (x : Request).
                  HashMap.get x.correlation_id (HashMap.remove r.correlation_id d.pending))
                (sym is)
              ∙ remove_same r.correlation_id d.pending))
  Step-Change (drops u r here at) =
      own_step (abandon u r d) u r (record r { phase = dropped }) here refl (λ free. free)
        (λ is own found.
          leaves (subst (λ (x : Request). (x.phase ≡ logging) ⊎ (x.phase ≡ waiting)) is at)
            (found ∙ ap (λ (x : Request). some (record x { phase = dropped })) is) refl)
  Step-Change (delivers reply) = deliver-Change reply
