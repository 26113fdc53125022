-- ===== src/Api/Arrival.antt =====
-- bin/api/main.rs: a reply reaches the request that waits for it, and a request that gives up
-- leaves nothing behind.
use cex_matching_engine.Prelude.{
  refl, ℕ, ◌⊎◌, inl, inr, ◌≡◌, none, some, arith, nat_eqb_iff, nat_eq, subst, sym, ◌∙◌, ap,
}
use cex_matching_engine.Prelude.HashMap
use cex_matching_engine.Prelude.HashMap.{HashMap}
use cex_matching_engine.Api.{ApiError, CommandResponse}
use cex_matching_engine.Api.Auth.{Outcome, done, failed}
use cex_matching_engine.Api.Pending.{
  ResponseEnvelope, waiting, expired, finished, Request, Desk, receive, expire, give_up, send,
  deliver, Step, Steps, receives, expires, clears, delivers, Reach, next, dropped,
}
use cex_matching_engine.Api.Replies.{Listens}
use cex_matching_engine.Api.Waiting.{Reach-IsSound}
use cex_matching_engine.Command.{CommandResponse}
use cex_matching_engine.Api.Later.{
  Stands, HasReply, IsLate, HasReply-kept, IsLate-kept, Steps-Stands,
}

-- The request can end in one step, with that result and no entry.
abbrev pub CanEnd : ℕ → ℕ → Outcome CommandResponse → Desk → Type 0
CanEnd t id result e =
    (f : Desk) × (s : Request) × Step e f
    × (HashMap.get t f.requests ≡ some s)
    × (s.correlation_id ≡ id)
    × (s.phase ≡ finished result)
    × (HashMap.get id f.pending ≡ none)

deliver-mailed :
    (d : Desk) (t : ℕ) (r : Request) (reply : ResponseEnvelope)
    → HashMap.get t d.requests ≡ some r
    → r.phase ≡ waiting
    → reply.correlation_id ≡ r.correlation_id
    → HashMap.get r.correlation_id d.pending ≡ some t
    → (HashMap.get t (deliver reply d).requests ≡ some (record r { inbox = some reply }))
      × (HashMap.get r.correlation_id (deliver reply d).pending ≡ none)
unfolding deliver send
deliver-mailed d t r reply here waits own entry =
    let entry' : HashMap.get reply.correlation_id d.pending ≡ some t =
      ap (λ (k : ℕ). HashMap.get k d.pending) own ∙ entry in
    let sent : send reply r ≡ record r { inbox = some reply } = ground arith in
    let requests : (deliver reply d).requests ≡ HashMap.insert t (send reply r) d.requests =
      rw (entry', deliver, here) refl in
    let pending : (deliver reply d).pending ≡ HashMap.remove reply.correlation_id d.pending =
      rw (entry', deliver, here) refl in
    (
      ap (HashMap.get t) requests
          ∙ ground (arith, HashMap.get-insert t t (send reply r) d.requests, nat_eqb_iff t t),
      ap (HashMap.get r.correlation_id) pending
          ∙ ground (
            arith,
            HashMap.get-remove r.correlation_id reply.correlation_id d.pending,
            nat_eqb_iff r.correlation_id reply.correlation_id,
          ),
    )

receive-CanEnd :
    (e : Desk) (t id : ℕ) (s : Request) (reply : ResponseEnvelope)
    → HashMap.get t e.requests ≡ some s
    → s.correlation_id ≡ id
    → HashMap.get id e.pending ≡ none
    → s.phase ≡ waiting
    → s.inbox ≡ some reply
    → CanEnd t id (done reply.response) e
unfolding receive
receive-CanEnd e t id s reply there is_id free waits mail =
    let answered : Request = record s { phase = finished (done reply.response) } in
    (
      receive t s reply e,
      answered,
      receives t s reply there waits mail,
      ground (arith, HashMap.get-insert t t answered e.requests, nat_eqb_iff t t),
      is_id,
      refl,
      free,
    )

give_up-CanEnd :
    (e : Desk) (t id : ℕ) (s : Request)
    → HashMap.get t e.requests ≡ some s
    → s.correlation_id ≡ id
    → s.phase ≡ expired
    → CanEnd t id (failed ApiError.timed_out) e
unfolding give_up
give_up-CanEnd e t id s there is_id late =
    let over : Request = record s { phase = finished (failed ApiError.timed_out) } in
    (
      give_up t s ApiError.timed_out e,
      over,
      clears t s there late,
      ground (arith, HashMap.get-insert t t over e.requests, nat_eqb_iff t t),
      is_id,
      refl,
      ground (
        arith,
        HashMap.get-remove id s.correlation_id e.pending,
        nat_eqb_iff id s.correlation_id,
      ),
    )

-- The request has that answer, or its client is gone, or it waits and can take the answer at once.
abbrev pub HasAnswer : ResponseEnvelope → ℕ → ℕ → Desk → Type 0
HasAnswer reply t id e =
    (s : Request) × (HashMap.get t e.requests ≡ some s)
    × (s.correlation_id ≡ id)
    × (HashMap.get id e.pending ≡ none)
    × (((s.phase ≡ waiting) × CanEnd t id (done reply.response) e)
        ⊎ ((s.phase ≡ finished (done reply.response)) ⊎ (s.phase ≡ dropped)))

-- The request has timed out and its entry is gone, or it is about to.
abbrev pub HasTimedOut : ℕ → ℕ → Desk → Type 0
HasTimedOut t id e =
    (s : Request) × (HashMap.get t e.requests ≡ some s)
    × (s.correlation_id ≡ id)
    × (((s.phase ≡ expired) × CanEnd t id (failed ApiError.timed_out) e)
        ⊎ ((s.phase ≡ finished (failed ApiError.timed_out)) × (HashMap.get id e.pending ≡ none)))

module _ (d : Desk) (reached : Reach d) (t : ℕ) (r : Request)
    (here : HashMap.get t d.requests ≡ some r) (waits : r.phase ≡ waiting) (empty : r.inbox ≡ none)
    (e : Desk) where
  -- Where a request waits without mail and an envelope with its id is delivered: in every state that
  -- follows, whatever else happens, its entry is gone, and it has the response of that envelope as
  -- its answer, or its client has gone away, or it still waits and a step ends it with that response.
  pub reply_settles :
      (reply : ResponseEnvelope)
      → reply.correlation_id ≡ r.correlation_id
      → Steps (deliver reply d) e
      → HasAnswer reply t r.correlation_id e
  reply_settles reply own later =
      let id = r.correlation_id in
      let sound = Reach-IsSound d reached in
      let entry : HashMap.get id d.pending ≡ some t =
        (sound.served t r here).registered (subst Listens (sym waits) tt) empty in
      let (there, gone) = deliver-mailed d t r reply here waits own entry in
      let now : Stands t id (HasReply reply) (deliver reply d) =
        (record r { inbox = some reply }, there, refl, (gone, inl (waits, refl))) in
      let (s, found, is_id, (free, stands)) =
        Steps-Stands t id (HasReply reply) (λ d' e' s'. HasReply-kept d' e' t id reply s')
          (next reached (delivers reply)) later now in
      (
        s,
        found,
        is_id,
        free,
        elim stands [
          | inl (still, mail) ↦
              inl (still, receive-CanEnd e t id s reply found is_id free still mail)
          | inr over ↦ inr over
        ],
      )

  -- Where a request waits without mail and its time is up: in every state that follows, whatever
  -- else happens, a late reply included, it has ended with a timeout and its entry is gone, or a
  -- step ends it so.
  pub timeout_settles : Steps (expire t r d) e → HasTimedOut t r.correlation_id e
  unfolding expire
  timeout_settles later =
      let id = r.correlation_id in
      let late : Request = record r { phase = expired } in
      let there : HashMap.get t (expire t r d).requests ≡ some late =
        ground (arith, HashMap.get-insert t t late d.requests, nat_eqb_iff t t) in
      let now : Stands t id IsLate (expire t r d) = (late, there, refl, inl refl) in
      let (s, found, is_id, stands) =
        Steps-Stands t id IsLate (λ d' e' s'. IsLate-kept d' e' t id s')
          (next reached (expires t r here waits empty)) later now in
      (
        s,
        found,
        is_id,
        elim stands [
          | inl still ↦ inl (still, give_up-CanEnd e t id s found is_id still)
          | inr over ↦ inr over
        ],
      )
