-- ===== src/Api/Replies.antt =====
-- bin/api/main.rs: what holds of the waiting requests, whatever the order of the steps.
use cex_matching_engine.Prelude.{
  refl, ℕ, ◌≡◌, ◌≢◌, none, some, arith, Bool, true, false, nat_eqb, nat_eqb_iff, nat_eq, Bool-cases,
  inl, inr, sym, ap, ◌∙◌, ◌⊎◌,
}
use cex_matching_engine.Prelude.HashMap
use cex_matching_engine.Prelude.HashMap.{HashMap}
use cex_matching_engine.Command.{CommandResponse}
use cex_matching_engine.Api.Auth.{done}
use cex_matching_engine.Api.Pending.{
  ResponseEnvelope, Phase, logging, waiting, finished, Request, Desk,
}

abbrev pub Unfinished : Phase → Type 0
Unfinished (finished result) = ⊥
Unfinished _ = Unit

abbrev pub Listens : Phase → Type 0
Listens logging = Unit
Listens waiting = Unit
Listens _ = ⊥

-- A request and the map of waiters: its mail is its own, its answer is what its mail says, and
-- while it listens without mail it is registered.
pub record IsServed (pending : HashMap ℕ ℕ) (t : ℕ) (r : Request) : Type 0 where
  pub own_mail :
      (reply : ResponseEnvelope) → r.inbox ≡ some reply → reply.correlation_id ≡ r.correlation_id
  pub answered :
      (resp : CommandResponse)
      → r.phase ≡ finished (done resp)
      → (reply : ResponseEnvelope) × (r.inbox ≡ some reply) × (reply.response ≡ resp)
  pub registered : Listens r.phase → r.inbox ≡ none → HashMap.get r.correlation_id pending ≡ some t

-- An entry of the map belongs to a request that is not finished and has no mail.
abbrev pub Owned : HashMap ℕ Request → ℕ → ℕ → Type 0
Owned requests id t =
    (r : Request) × (HashMap.get t requests ≡ some r)
    × (r.correlation_id ≡ id)
    × Unfinished r.phase
    × (r.inbox ≡ none)

pub record IsSound (d : Desk) : Type 0 where
  pub served : (t : ℕ) (r : Request) → HashMap.get t d.requests ≡ some r → IsServed d.pending t r
  pub owned : (id t : ℕ) → HashMap.get id d.pending ≡ some t → Owned d.requests id t
  pub distinct :
      (t u : ℕ) (r s : Request)
      → HashMap.get t d.requests ≡ some r
      → HashMap.get u d.requests ≡ some s
      → r.correlation_id ≡ s.correlation_id
      → t ≡ u

-- The map of waiters, with the entry of an id taken out or not.
abbrev cleared : Bool → ℕ → HashMap ℕ ℕ → HashMap ℕ ℕ
cleared true id pending = HashMap.remove id pending
cleared false id pending = pending

get-cleared :
    (b : Bool) (id j : ℕ) (pending : HashMap ℕ ℕ)
    → j ≢ id
    → HashMap.get j (cleared b id pending) ≡ HashMap.get j pending
get-cleared true id j pending h = ground (arith, HashMap.get-remove j id pending, nat_eqb_iff j id)
get-cleared false id j pending h = refl

get-cleared-some :
    (b : Bool) (id j t : ℕ) (pending : HashMap ℕ ℕ)
    → HashMap.get j (cleared b id pending) ≡ some t
    → HashMap.get j pending ≡ some t
get-cleared-some true id j t pending h =
    ground (arith, HashMap.get-remove j id pending, nat_eqb_iff j id)
get-cleared-some false id j t pending h = h

-- A step that changes one request, and perhaps takes its entry out.
module _ (d : Desk) (t : ℕ) (r r' : Request) (b : Bool) (sound : IsSound d)
    (here : HashMap.get t d.requests ≡ some r) (same : r'.correlation_id ≡ r.correlation_id) where
  abbrev after : Desk
  after = record {
    pending = cleared b r.correlation_id d.pending;
    requests = HashMap.insert t r' d.requests;
  }

  -- A request afterwards is the changed one, or another that was there.
  after_cases :
      (u : ℕ) (s : Request)
      → HashMap.get u after.requests ≡ some s
      → ((u ≡ t) × (s ≡ r')) ⊎ ((u ≢ t) × (HashMap.get u d.requests ≡ some s))
  after_cases u s e = elim (Bool-cases (nat_eqb u t)) [
    | inl eq ↦ inl ((nat_eqb_iff u t).0 eq, ground (arith, HashMap.get-insert u t r' d.requests))
    | inr ne ↦ inr (
      λ eq. ground (arith, nat_eqb_iff u t),
      ground (arith, HashMap.get-insert u t r' d.requests),
    )
  ]

  after-IsServed :
      IsServed after.pending t r'
      → (u : ℕ) (s : Request) → HashMap.get u after.requests ≡ some s
      → IsServed after.pending u s
  after-IsServed fine u s e = elim (after_cases u s e) [
    | inl (eq, is) ↦ rw (eq, is) fine
    | inr (ne, was) ↦
        let before = sound.served u s was in
        let apart : s.correlation_id ≢ r.correlation_id =
          λ eq. ne (sound.distinct u t s r was here eq) in
        record {
          own_mail = before.own_mail;
          answered = before.answered;
          registered = λ listens empty.
              get-cleared b r.correlation_id s.correlation_id d.pending apart
              ∙ before.registered listens empty;
        }
  ]

  after-Owned :
      ((HashMap.get r.correlation_id after.pending ≡ some t)
        → Unfinished r'.phase × (r'.inbox ≡ none))
      → (id u : ℕ) → HashMap.get id after.pending ≡ some u
      → Owned after.requests id u
  after-Owned unserved id u e =
      let (s, found, is_id, unfinished, empty) =
        sound.owned id u (get-cleared-some b r.correlation_id id u d.pending e) in
      elim (Bool-cases (nat_eqb u t)) [
        | inl eq ↦
            let u_is = (nat_eqb_iff u t).0 eq in
            let s_is : s ≡ r = ground (arith, ap (λ (x : ℕ). HashMap.get x d.requests) u_is) in
            let id_is : id ≡ r.correlation_id = ground arith in
            let (unfinished', empty') =
              unserved (ground (arith, ap (λ (x : ℕ). HashMap.get x after.pending) id_is)) in
            (
              r',
              ground (arith, HashMap.get-insert u t r' d.requests),
              ground arith,
              unfinished',
              empty',
            )
        | inr ne ↦
            (s, ground (arith, HashMap.get-insert u t r' d.requests), is_id, unfinished, empty)
      ]

  after-distinct :
      (u v : ℕ) (x y : Request)
      → HashMap.get u after.requests ≡ some x
      → HashMap.get v after.requests ≡ some y
      → x.correlation_id ≡ y.correlation_id
      → u ≡ v
  after-distinct u v x y ex ey eq = elim (after_cases u x ex) [
    | inl (u_is, x_is) ↦ elim (after_cases v y ey) [
      | inl (v_is, y_is) ↦ u_is ∙ sym v_is
      | inr (ne, was) ↦ u_is ∙ sound.distinct t v r y here was (ground arith)
    ]
    | inr (ne, was) ↦ elim (after_cases v y ey) [
      | inl (v_is, y_is) ↦ sound.distinct u t x r was here (ground arith) ∙ sym v_is
      | inr (ne', was') ↦ sound.distinct u v x y was was' eq
    ]
  ]

  pub changed-IsSound :
      IsServed after.pending t r'
      → ((HashMap.get r.correlation_id after.pending ≡ some t)
          → Unfinished r'.phase × (r'.inbox ≡ none))
      → IsSound after
  changed-IsSound fine unserved = record {
    served = after-IsServed fine;
    owned = after-Owned unserved;
    distinct = after-distinct;
  }
