-- ===== src/Api/Pending.antt =====
-- bin/api/main.rs: the requests that wait for the engine, `submit_command` and
-- `run_result_subscriber`. A request is a task with a channel of its own; each step is what happens
-- between two waits, so that the steps of the tasks and of the subscriber can follow in any order.
use cex_matching_engine.Prelude.{ℕ, ◌≡◌, Option, none, some, nat_eq, [], ◌≢◌, ◌⊎◌}
use cex_matching_engine.Prelude.HashMap
use cex_matching_engine.Prelude.HashMap.{HashMap}
use cex_matching_engine.Prelude.Text.{Text}
use cex_matching_engine.Command.{CommandResponse}
use cex_matching_engine.Api.{ApiError}
use cex_matching_engine.Api.Auth.{Outcome, done, failed}

pub record ResponseEnvelope : Type 0 where
  pub correlation_id : ℕ
  pub response : CommandResponse

-- Where a request stands: its command is being logged, it waits, its time is up and it is about to
-- clear its entry, or it has its result; or the client has gone away while it logged or waited, so
-- that its task was dropped where it stood.
pub data Phase : Type 0 where
  logging waiting expired dropped : Phase
  finished : Outcome CommandResponse → Phase

-- The channel's value is the envelope that was sent, if any.
pub record Request : Type 0 where
  pub correlation_id : ℕ
  pub phase : Phase
  pub inbox : Option ResponseEnvelope

-- The map of waiters, from a correlation id to the request whose channel is meant.
pub record Desk : Type 0 where
  pub pending : HashMap ℕ ℕ
  pub requests : HashMap ℕ Request

abbrev pub new_desk : Desk
new_desk = record { pending = []; requests = [] }

unfoldable pub put : ℕ → Request → Desk → Desk
put t r d = record d { requests = HashMap.insert t r d.requests }

-- The command is serialized and the waiter is registered.
unfoldable pub register : ℕ → ℕ → Desk → Desk
register t id d = record {
  pending = HashMap.insert id t d.pending;
  requests =
      HashMap.insert t (record { correlation_id = id; phase = logging; inbox = none }) d.requests;
}

-- XADD has succeeded.
unfoldable pub logged : ℕ → Request → Desk → Desk
unfolding put
logged t r d = put t (record r { phase = waiting }) d

-- A result, with the entry cleared.
unfoldable pub give_up : ℕ → Request → ApiError → Desk → Desk
give_up t r e d = record {
  pending = HashMap.remove r.correlation_id d.pending;
  requests = HashMap.insert t (record r { phase = finished (failed e) }) d.requests;
}

-- The reply is taken from the channel.
unfoldable pub receive : ℕ → Request → ResponseEnvelope → Desk → Desk
unfolding put
receive t r reply d = put t (record r { phase = finished (done reply.response) }) d

unfoldable pub expire : ℕ → Request → Desk → Desk
unfolding put
expire t r d = put t (record r { phase = expired }) d

-- The task is dropped at one of its two waits, with its receiver. Nothing takes its entry out.
unfoldable pub abandon : ℕ → Request → Desk → Desk
unfolding put
abandon t r d = put t (record r { phase = dropped }) d

-- `tx.send`: the value is lost where the receiver is gone.
unfoldable pub send : ResponseEnvelope → Request → Request
send reply r = elim r.phase [
  | logging ↦ record r { inbox = some reply }
  | waiting ↦ record r { inbox = some reply }
  | expired ↦ r
  | dropped ↦ r
  | finished _ ↦ r
]

-- The subscriber takes the waiter out and wakes it.
unfoldable pub deliver : ResponseEnvelope → Desk → Desk
unfolding send
deliver reply d = elim (HashMap.get reply.correlation_id d.pending) [
  | none ↦ d
  | some t ↦ elim (HashMap.get t d.requests) [
    | none ↦ record d { pending = HashMap.remove reply.correlation_id d.pending }
    | some r ↦ record {
      pending = HashMap.remove reply.correlation_id d.pending;
      requests = HashMap.insert t (send reply r) d.requests;
    }
  ]
]

-- The steps. A new request has an id that no other has, as `Uuid::new_v4` makes them.
pub data Step (d : Desk) : Desk → Type 0 where
  registers :
      (t id : ℕ)
      → HashMap.get t d.requests ≡ none
      → ((u : ℕ) (r : Request) → HashMap.get u d.requests ≡ some r → r.correlation_id ≢ id)
      → Step d (register t id d)
  is_logged :
      (t : ℕ) (r : Request)
      → HashMap.get t d.requests ≡ some r
      → r.phase ≡ logging
      → Step d (logged t r d)
  logging_fails :
      (t : ℕ) (r : Request) (message : Text)
      → HashMap.get t d.requests ≡ some r
      → r.phase ≡ logging
      → Step d (give_up t r (ApiError.internal message) d)
  receives :
      (t : ℕ) (r : Request) (reply : ResponseEnvelope)
      → HashMap.get t d.requests ≡ some r
      → r.phase ≡ waiting
      → r.inbox ≡ some reply
      → Step d (receive t r reply d)
  expires :
      (t : ℕ) (r : Request)
      → HashMap.get t d.requests ≡ some r
      → r.phase ≡ waiting
      → r.inbox ≡ none
      → Step d (expire t r d)
  clears :
      (t : ℕ) (r : Request)
      → HashMap.get t d.requests ≡ some r
      → r.phase ≡ expired
      → Step d (give_up t r ApiError.timed_out d)
  drops :
      (t : ℕ) (r : Request)
      → HashMap.get t d.requests ≡ some r
      → (r.phase ≡ logging) ⊎ (r.phase ≡ waiting)
      → Step d (abandon t r d)
  delivers : (reply : ResponseEnvelope) → Step d (deliver reply d)

pub data Reach : Desk → Type 0 where
  start : Reach new_desk
  next : {d e : Desk} → Reach d → Step d e → Reach e

-- What can follow a state, in any number of steps.
pub data Steps (d : Desk) : Desk → Type 0 where
  stay : Steps d d
  more : {e f : Desk} → Steps d e → Step e f → Steps d f
