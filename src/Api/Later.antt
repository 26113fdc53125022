-- ===== src/Api/Later.antt =====
-- bin/api/main.rs: what a request that has its reply, or is late, keeps in every later state.
use mathlib.Core.Option.{some-injective}
use cex_matching_engine.Prelude.{
  refl, ℕ, ◌⊎◌, inl, inr, Option, ◌≡◌, none, some, arith, nat_eq, subst, sym, ◌∙◌, ap,
}
use cex_matching_engine.Prelude.HashMap
use cex_matching_engine.Prelude.HashMap.{HashMap}
use cex_matching_engine.Api.{ApiError}
use cex_matching_engine.Api.Auth.{done, failed}
use cex_matching_engine.Api.Pending.{
  ResponseEnvelope, Phase, waiting, expired, finished, Request, Desk, send, Steps, stay, more,
  Reach, next, dropped, logging,
}
use cex_matching_engine.Api.Replies.{Listens}
use cex_matching_engine.Api.Waiting.{Reach-IsSound}
use cex_matching_engine.Api.Changes.{
  Change, untouched, works, answers, tires, ends, leaves, hears, Step-Change,
}

-- The request, and what holds of it and of its entry.
abbrev pub Stands : ℕ → ℕ → (Request → Option ℕ → Type 0) → Desk → Type 0
Stands t id P e =
    (s : Request) × (HashMap.get t e.requests ≡ some s)
    × (s.correlation_id ≡ id)
    × P s (HashMap.get id e.pending)

-- The reply stands in the mail of the request, or is its answer, or its client is gone.
abbrev pub HasReply : ResponseEnvelope → Request → Option ℕ → Type 0
HasReply reply s entry =
    (entry ≡ none)
    × (((s.phase ≡ waiting) × (s.inbox ≡ some reply))
        ⊎ ((s.phase ≡ finished (done reply.response)) ⊎ (s.phase ≡ dropped)))

-- The request is about to give up, or has.
abbrev pub IsLate : Request → Option ℕ → Type 0
IsLate s entry =
    (s.phase ≡ expired) ⊎ ((s.phase ≡ finished (failed ApiError.timed_out)) × (entry ≡ none))

Steps-Reach : {d e : Desk} → Reach d → Steps d e → Reach e
Steps-Reach reached stay = reached
Steps-Reach reached (more before step) = next (Steps-Reach reached before) step

still_none :
    (d e : Desk) (id : ℕ) (s : Request)
    → s.correlation_id ≡ id
    → (HashMap.get s.correlation_id d.pending ≡ none
        → HashMap.get s.correlation_id e.pending ≡ none)
    → HashMap.get id d.pending ≡ none
    → HashMap.get id e.pending ≡ none
still_none d e id s is_id kept free =
    subst (λ (k : ℕ). HashMap.get k e.pending ≡ none) is_id
      (kept (subst (λ (k : ℕ). HashMap.get k d.pending ≡ none) (sym is_id) free))

clash_mail : (reply : ResponseEnvelope) → some reply ≡ none → ⊥
clash_mail reply e = cc

clash_entry : (t : ℕ) → some t ≡ none → ⊥
clash_entry t e = cc

-- A late request no longer listens.
IsLate-over :
    (s : Request) (entry : Option ℕ) → IsLate s entry → (p : Phase) → s.phase ≡ p → Listens p → ⊥
IsLate-over s entry (inl late) p at listens = subst Listens (sym at ∙ late) listens
IsLate-over s entry (inr (over, free)) p at listens = subst Listens (sym at ∙ over) listens

pub HasReply-kept :
    (d e : Desk) (t id : ℕ) (reply : ResponseEnvelope) (s : Request)
    → s.correlation_id ≡ id
    → HasReply reply s (HashMap.get id d.pending)
    → Change d e t s
    → Stands t id (HasReply reply) e
unfolding send
HasReply-kept d e t id reply s is_id h (untouched there kept) =
    (s, there, is_id, (still_none d e id s is_id kept h.0, h.1))
HasReply-kept d e t id reply s is_id (free, stands) (works at) =
    absurd (elim stands [ inl (waits, mail) ↦ cc | inr (inl over) ↦ cc | inr (inr gone) ↦ cc ])
HasReply-kept d e t id reply s is_id (free, stands) (answers other at mail there same) =
    elim stands [
      | inl (waits, own_mail) ↦
          let is : other ≡ reply = some-injective other reply (sym mail ∙ own_mail) in
          (
            record s { phase = finished (done other.response) },
            there,
            is_id,
            (
              ap (HashMap.get id) same ∙ free,
              inr (inl (ap (λ (x : ResponseEnvelope). finished (done x.response)) is)),
            ),
          )
      | inr (inl over) ↦ absurd (cc)
      | inr (inr gone) ↦ absurd (cc)
    ]
HasReply-kept d e t id reply s is_id (free, stands) (tires at empty) = absurd (elim stands [
  | inl (waits, mail) ↦ clash_mail reply (sym mail ∙ empty)
  | inr (inl over) ↦ cc
  | inr (inr gone) ↦ cc
])
HasReply-kept d e t id reply s is_id (free, stands) (ends at there gone) =
    absurd (elim stands [ inl (waits, mail) ↦ cc | inr (inl over) ↦ cc | inr (inr away) ↦ cc ])
HasReply-kept d e t id reply s is_id (free, stands) (leaves at there same) =
    (record s { phase = dropped }, there, is_id, (ap (HashMap.get id) same ∙ free, inr (inr refl)))
HasReply-kept d e t id reply s is_id (free, stands) (hears other entry there) =
    absurd (clash_entry t (sym entry ∙ ap (λ (k : ℕ). HashMap.get k d.pending) is_id ∙ free))

pub IsLate-kept :
    (d e : Desk) (t id : ℕ) (s : Request)
    → s.correlation_id ≡ id
    → IsLate s (HashMap.get id d.pending)
    → Change d e t s
    → Stands t id IsLate e
unfolding send
IsLate-kept d e t id s is_id (inl late) (untouched there kept) = (s, there, is_id, inl late)
IsLate-kept d e t id s is_id (inr (over, free)) (untouched there kept) =
    (s, there, is_id, inr (over, still_none d e id s is_id kept free))
IsLate-kept d e t id s is_id h (works at) = absurd (IsLate-over s _ h logging at tt)
IsLate-kept d e t id s is_id h (answers other at mail there same) =
    absurd (IsLate-over s _ h waiting at tt)
IsLate-kept d e t id s is_id h (tires at empty) = absurd (IsLate-over s _ h waiting at tt)
IsLate-kept d e t id s is_id h (ends at there gone) = (
  record s { phase = finished (failed ApiError.timed_out) },
  there,
  is_id,
  inr (refl, subst (λ (k : ℕ). HashMap.get k e.pending ≡ none) is_id gone),
)
IsLate-kept d e t id s is_id h (leaves at there same) = absurd (elim at [
  | inl works_still ↦ IsLate-over s _ h logging works_still tt
  | inr waits_still ↦ IsLate-over s _ h waiting waits_still tt
])
IsLate-kept d e t id s is_id (inl late) (hears other entry there) =
    let lost : send other s ≡ s = ground arith in (s, there ∙ ap some lost, is_id, inl late)
IsLate-kept d e t id s is_id (inr (over, free)) (hears other entry there) =
    absurd (clash_entry t (sym entry ∙ ap (λ (k : ℕ). HashMap.get k d.pending) is_id ∙ free))

module _ (t id : ℕ) (P : Request → Option ℕ → Type 0)
    (kept : (d e : Desk) (s : Request)
      → s.correlation_id ≡ id
      → P s (HashMap.get id d.pending)
      → Change d e t s
      → Stands t id P e) where
  -- What every change keeps holds in every later state.
  pub Steps-Stands : {d e : Desk} → Reach d → Steps d e → Stands t id P d → Stands t id P e
  Steps-Stands reached stay now = now
  Steps-Stands {d} {e = f} reached (more {e} before step) now =
      let (s, there, is_id, holds) = Steps-Stands reached before now in
      let sound = Reach-IsSound e (Steps-Reach reached before) in
      kept e f s is_id holds (Step-Change e sound t s there step)
