-- ===== src/Api/Steps.antt =====
-- bin/api/main.rs: the steps of a request and of the subscriber keep the requests and the map of
-- waiters in order.
use cex_matching_engine.Prelude.{
  refl, ℕ, ◌≡◌, Option, none, some, arith, nat_eqb_iff, nat_eq, true, false, inl, inr, sym, ap, ◌∙◌,
  subst, ◌⊎◌,
}
use cex_matching_engine.Prelude.HashMap
use cex_matching_engine.Prelude.HashMap.{HashMap}
use cex_matching_engine.Api.{ApiError}
use cex_matching_engine.Api.Auth.{done, failed}
use cex_matching_engine.Api.Pending.{
  ResponseEnvelope, Phase, logging, waiting, expired, finished, Request, Desk, new_desk, logged,
  give_up, receive, expire, send, deliver, dropped, abandon,
}
use cex_matching_engine.Api.Replies.{IsSound, IsServed, Unfinished, Listens, changed-IsSound}

pub new_desk-IsSound : IsSound new_desk
new_desk-IsSound = record {
  served = λ t r e. absurd (unfold HashMap.get in cc);
  owned = λ id t e. absurd (unfold HashMap.get in cc);
  distinct = λ t u r s e. absurd (unfold HashMap.get in cc);
}

Phase-cases :
    (p : Phase) → Unfinished p → ((p ≡ logging) ⊎ (p ≡ waiting)) ⊎ ((p ≡ expired) ⊎ (p ≡ dropped))
Phase-cases logging h = inl (inl refl)
Phase-cases waiting h = inl (inr refl)
Phase-cases expired h = inr (inl refl)
Phase-cases dropped h = inr (inr refl)
Phase-cases (finished result) h = absurd h

module _ (d : Desk) (sound : IsSound d) (t : ℕ) (r : Request)
    (here : HashMap.get t d.requests ≡ some r) where
  -- An entry that is the request's own.
  entry-empty :
      HashMap.get r.correlation_id d.pending ≡ some t → Unfinished r.phase × (r.inbox ≡ none)
  entry-empty e =
      let (s, found, is_id, unfinished, empty) = sound.owned r.correlation_id t e in
      let same : s ≡ r = ground arith in
      subst (λ (x : Request). Unfinished x.phase × (x.inbox ≡ none)) same (unfinished, empty)

  pub logged-IsSound : r.phase ≡ logging → IsSound (logged t r d)
  unfolding logged
  logged-IsSound at =
      let was = sound.served t r here in
      changed-IsSound d t r (record r { phase = waiting }) false sound here refl
        (record {
          own_mail = was.own_mail;
          answered = λ resp e. cc;
          registered = λ listens empty. was.registered (subst Listens (sym at) tt) empty;
        })
        (λ e. (tt, (entry-empty e).1))

  pub expire-IsSound : r.inbox ≡ none → IsSound (expire t r d)
  unfolding expire
  expire-IsSound empty =
      let was = sound.served t r here in
      changed-IsSound d t r (record r { phase = expired }) false sound here refl
        (record {
          own_mail = was.own_mail;
          answered = λ resp e. cc;
          registered = λ listens empty'. absurd listens;
        })
        (λ e. (tt, empty))

  pub give_up-IsSound : (e : ApiError) → IsSound (give_up t r e d)
  unfolding give_up
  give_up-IsSound e =
      let was = sound.served t r here in
      changed-IsSound d t r (record r { phase = finished (failed e) }) true sound here refl
        (record {
          own_mail = was.own_mail;
          answered = λ resp eq. cc;
          registered = λ listens empty'. absurd listens;
        })
        (λ eq. absurd (
          ground (
            arith,
            HashMap.get-remove r.correlation_id r.correlation_id d.pending,
            nat_eqb_iff r.correlation_id r.correlation_id,
          )))

  pub receive-IsSound :
      (reply : ResponseEnvelope) → r.inbox ≡ some reply → IsSound (receive t r reply d)
  unfolding receive
  receive-IsSound reply mail =
      let was = sound.served t r here in
      changed-IsSound d t r (record r { phase = finished (done reply.response) }) false sound here
        refl
        (record {
          own_mail = was.own_mail;
          answered = λ resp eq. (reply, mail, cc);
          registered = λ listens empty'. absurd listens;
        })
        (λ eq.
          let clash : ◌≡◌ {A = Option ResponseEnvelope} (some reply) none =
            sym mail ∙ (entry-empty eq).1 in
          absurd (cc clash))

  pub abandon-IsSound : (r.phase ≡ logging) ⊎ (r.phase ≡ waiting) → IsSound (abandon t r d)
  unfolding abandon
  abandon-IsSound at =
      let was = sound.served t r here in
      let gone : Request = record r { phase = dropped } in
      changed-IsSound d t r gone false sound here refl
        (record {
          own_mail = was.own_mail;
          answered = λ resp e. cc;
          registered = λ listens empty. absurd listens;
        })
        (λ e. (tt, (entry-empty e).1))

  deaf : (r.phase ≡ expired) ⊎ (r.phase ≡ dropped) → Listens r.phase → ⊥
  deaf (inl late) listens = subst Listens late listens
  deaf (inr gone) listens = subst Listens gone listens

  -- The envelope with the request's id.
  send-IsServed :
      (pending : HashMap ℕ ℕ) (reply : ResponseEnvelope)
      → r.correlation_id ≡ reply.correlation_id
      → Unfinished r.phase
      → r.inbox ≡ none
      → IsServed pending t (send reply r) × ((send reply r).correlation_id ≡ r.correlation_id)
  unfolding send
  send-IsServed pending reply is_own unfinished empty = elim (Phase-cases r.phase unfinished) [
    | inl listening ↦
        let sent : send reply r ≡ record r { inbox = some reply } = ground arith in
        subst (λ (x : Request). IsServed pending t x × (x.correlation_id ≡ r.correlation_id))
          (sym sent)
          (
            record {
              own_mail = λ mail eq. ground arith;
              answered = λ resp eq. absurd (subst Unfinished eq unfinished);
              registered = λ listens eq. cc;
            },
            refl,
          )
    | inr over ↦
        let lost : send reply r ≡ r = ground arith in
        let was = sound.served t r here in
        subst (λ (x : Request). IsServed pending t x × (x.correlation_id ≡ r.correlation_id))
          (sym lost)
          (
            record {
              own_mail = was.own_mail;
              answered = was.answered;
              registered = λ listens eq. absurd (deaf over listens);
            },
            refl,
          )
  ]

  pub deliver-IsSound :
      (reply : ResponseEnvelope)
      → HashMap.get reply.correlation_id d.pending ≡ some t
      → IsSound (deliver reply d)
  unfolding deliver
  deliver-IsSound reply entry =
      let (s, found, is_id, unfinished, empty) = sound.owned reply.correlation_id t entry in
      let same : s ≡ r = ground arith in
      let own : r.correlation_id ≡ reply.correlation_id = ground arith in
      let open_phase : Unfinished r.phase =
        subst (λ (x : Request). Unfinished x.phase) same unfinished in
      let no_mail : r.inbox ≡ none = ground arith in
      let (fine, kept) =
        send-IsServed (HashMap.remove r.correlation_id d.pending) reply own open_phase no_mail in
      let result = λ (k : ℕ).
        let desk : Desk = record {
          pending = HashMap.remove k d.pending;
          requests = HashMap.insert t (send reply r) d.requests;
        } in
        desk in
      let delivered : deliver reply d ≡ result reply.correlation_id =
        rw (entry, deliver, here) refl in
      subst (λ x. IsSound x) (sym (delivered ∙ ap result (sym own)))
        (changed-IsSound d t r (send reply r) true sound here kept fine (λ eq. absurd (
          ground (
            arith,
            HashMap.get-remove r.correlation_id r.correlation_id d.pending,
            nat_eqb_iff r.correlation_id r.correlation_id,
          ))))
