-- ===== src/Api/Waiting.antt =====
-- bin/api/main.rs: what holds of the waiting requests in every state that the steps lead to.
use cex_matching_engine.Prelude.{
  refl, ℕ, ◌≡◌, ◌≢◌, Option, none, some, arith, nat_eqb, nat_eqb_iff, nat_eq, Bool-cases,
  Option-cases, inl, inr, sym, ap, ◌∙◌, subst, ◌⊎◌,
}
use cex_matching_engine.Prelude.HashMap
use cex_matching_engine.Prelude.HashMap.{HashMap}
use cex_matching_engine.Api.{ApiError}
use cex_matching_engine.Api.Pending.{
  logging, Request, Desk, register, deliver, Step, registers, is_logged, logging_fails, receives,
  expires, clears, drops, delivers, Reach, start, next,
}
use cex_matching_engine.Api.Replies.{IsSound, IsServed}
use cex_matching_engine.Api.Steps.{
  new_desk-IsSound, logged-IsSound, expire-IsSound, give_up-IsSound, receive-IsSound,
  deliver-IsSound, abandon-IsSound,
}

inserted_cases :
    (d : Desk) (t : ℕ) (r : Request)
    → HashMap.get t d.requests ≡ none
    → (u : ℕ) (s : Request) → HashMap.get u (HashMap.insert t r d.requests) ≡ some s
    → ((u ≡ t) × (s ≡ r)) ⊎ ((u ≢ t) × (HashMap.get u d.requests ≡ some s))
inserted_cases d t r new u s e = elim (Bool-cases (nat_eqb u t)) [
  | inl eq ↦ inl ((nat_eqb_iff u t).0 eq, ground (arith, HashMap.get-insert u t r d.requests))
  | inr ne ↦
      inr
        (λ eq. ground (arith, nat_eqb_iff u t), ground (arith, HashMap.get-insert u t r d.requests))
]

still_there :
    (d : Desk) (t : ℕ) (r : Request)
    → HashMap.get t d.requests ≡ none
    → (u : ℕ) (s : Request) → HashMap.get u d.requests ≡ some s
    → HashMap.get u (HashMap.insert t r d.requests) ≡ some s
still_there d t r new u s e = elim (Bool-cases (nat_eqb u t)) [
  | inl eq ↦
      let same = ap (λ (x : ℕ). HashMap.get x d.requests) ((nat_eqb_iff u t).0 eq) in
      let clash : ◌≡◌ {A = Option Request} (some s) none = sym e ∙ same ∙ new in cc clash
  | inr ne ↦ ground (arith, HashMap.get-insert u t r d.requests)
]

registered-IsServed :
    (t id : ℕ) (pending : HashMap ℕ ℕ)
    → IsServed
        (HashMap.insert id t pending)
        t
        (record { correlation_id = id; phase = logging; inbox = none })
registered-IsServed t id pending = record {
  own_mail = λ reply e. cc;
  answered = λ resp e. cc;
  registered =
      λ listens empty. ground (arith, HashMap.get-insert id id t pending, nat_eqb_iff id id);
}

kept-IsServed :
    (pending : HashMap ℕ ℕ) (t id u : ℕ) (s : Request)
    → IsServed pending u s
    → s.correlation_id ≢ id
    → IsServed (HashMap.insert id t pending) u s
kept-IsServed pending t id u s was apart = record {
  own_mail = was.own_mail;
  answered = was.answered;
  registered = λ listens empty.
      let before = was.registered listens empty in
      ground
        (arith, HashMap.get-insert s.correlation_id id t pending, nat_eqb_iff s.correlation_id id);
}

register-IsSound :
    (d : Desk) (t id : ℕ)
    → IsSound d
    → HashMap.get t d.requests ≡ none
    → ((u : ℕ) (r : Request) → HashMap.get u d.requests ≡ some r → r.correlation_id ≢ id)
    → IsSound (register t id d)
unfolding register
register-IsSound d t id sound new unused =
    let r : Request = record { correlation_id = id; phase = logging; inbox = none } in
    let cases = inserted_cases d t r new in
    record {
      served = λ u s e. elim (cases u s e) [
        | inl (u_is, s_is) ↦ rw (u_is, s_is) (registered-IsServed t id d.pending)
        | inr (ne, was) ↦ kept-IsServed d.pending t id u s (sound.served u s was) (unused u s was)
      ];
      owned = λ j u e. elim (Bool-cases (nat_eqb j id)) [
        | inl eq ↦
            let u_is : u ≡ t = ground (arith, HashMap.get-insert j id t d.pending) in
            (
              r,
              ground (arith, HashMap.get-insert u t r d.requests, nat_eqb_iff u t),
              ground (arith, nat_eqb_iff j id),
              tt,
              refl,
            )
        | inr ne ↦
            let (s, found, is_id, unfinished, empty) =
              sound.owned j u (ground (arith, HashMap.get-insert j id t d.pending)) in
            (s, still_there d t r new u s found, is_id, unfinished, empty)
      ];
      distinct = λ u v x y ex ey eq. elim (cases u x ex) [
        | inl (u_is, x_is) ↦ elim (cases v y ey) [
          | inl (v_is, y_is) ↦ u_is ∙ sym v_is
          | inr (ne, was) ↦ absurd (unused v y was (ground arith))
        ]
        | inr (ne, was) ↦ elim (cases v y ey) [
          | inl (v_is, y_is) ↦ absurd (unused u x was (ground arith))
          | inr (ne', was') ↦ sound.distinct u v x y was was' eq
        ]
      ];
    }

Step-IsSound : {d e : Desk} → Step d e → IsSound d → IsSound e
Step-IsSound {d} (registers t id new unused) sound = register-IsSound d t id sound new unused
Step-IsSound {d} (is_logged t r here at) sound = logged-IsSound d sound t r here at
Step-IsSound {d} (logging_fails t r message here at) sound =
    give_up-IsSound d sound t r here (ApiError.internal message)
Step-IsSound {d} (receives t r reply here at mail) sound =
    receive-IsSound d sound t r here reply mail
Step-IsSound {d} (expires t r here at empty) sound = expire-IsSound d sound t r here empty
Step-IsSound {d} (clears t r here at) sound = give_up-IsSound d sound t r here ApiError.timed_out
Step-IsSound {d} (drops t r here at) sound = abandon-IsSound d sound t r here at
Step-IsSound {d} (delivers reply) sound =
    elim (Option-cases (HashMap.get reply.correlation_id d.pending)) [
      | inl unknown ↦
          let dropped : deliver reply d ≡ d = unfold deliver in rw (unknown, deliver) refl in
          subst (λ x. IsSound x) (sym dropped) sound
      | inr (t, entry) ↦
          let (r, here, is_id, unfinished, empty) = sound.owned reply.correlation_id t entry in
          deliver-IsSound d sound t r here reply entry
    ]

-- In every state that the requests and the subscriber reach, in whatever order they step and
-- whichever clients go away: a request that has an answer has it from an envelope with its own id;
-- one that listens without mail is registered, so that a reply will find it; a registered id belongs
-- to a request that has neither a result nor mail, which is one that is still at work or one whose
-- client went away; and no two requests have the same id.
pub Reach-IsSound : (d : Desk) → Reach d → IsSound d
Reach-IsSound d start = new_desk-IsSound
Reach-IsSound d (next before step) = Step-IsSound step (Reach-IsSound _ before)
