-- ===== src/Runtime.antt =====
-- runtime.rs: the loop that applies commands and publishes what comes of them, and the recovery at
-- startup. Redis and serde are outside: what they answer is an argument, and what the loop asks of
-- them is a list of effects in order. A call that fails ends the loop, so that the effects up to
-- any point are those of a run that ended there.
pub mod Clean
pub mod Replay
pub mod Recovery
pub mod Stream
use cex_matching_engine.Prelude.{
  ℕ, Option, none, some, List, [], ◌∷◌, ◌++◌, map, leb, if◌then◌else◌, Bool, true, false, add_u64,
}
use cex_matching_engine.Prelude.Text.{Text}
use cex_matching_engine.Market.{AccountId, Pair}
use cex_matching_engine.Book.Types.{OrderBook}
use cex_matching_engine.Command.{Command, CommandResponse, EventBatch}
use cex_matching_engine.Engine.State.{Engine, default_limits}
use cex_matching_engine.Engine.Apply.{apply}

-- The correlation id is only passed on.
pub record CommandEnvelope : Type 0 where
  pub correlation_id : ℕ
  pub account_id : AccountId
  pub client_order_id : ℕ
  pub command : Command

-- An entry of the command stream: its id and its field `data`, where it has one.
pub record Entry : Type 0 where
  pub id : Text
  pub payload : Option Text

-- `serde_json`, and whether the file of a snapshot is written.
pub record Codec : Type 0 where
  pub read_command : Text → Option CommandEnvelope
  pub write_batch : EventBatch → Option Text
  pub write_response : ℕ → CommandResponse → Option Text
  pub save_succeeds : Text → Engine → Bool

pub data Effect : Type 0 where
  ack : Text → Effect
  add_event : EventBatch → Text → Effect
  publish : Text → Effect
  save : Text → Engine → Effect
  trim : Text → Effect

-- The variables of `run_engine`.
pub record Worker : Type 0 where
  pub engine : Engine
  pub since_snapshot : ℕ

-- The entry's command, where it has one that can be read.
unfoldable pub envelope_of : Codec → Entry → Option CommandEnvelope
envelope_of codec entry = elim entry.payload [ none ↦ none | some text ↦ codec.read_command text ]

-- The end of a round: a snapshot where it is due, and a trim where that was written.
unfoldable pub checkpoint : Codec → Option ℕ → Text → Engine → ℕ → List Effect × Worker
checkpoint codec none id e since = ([], record { engine = e; since_snapshot = since })
checkpoint codec (some every) id e since =
    if leb every since
    then (
      save id e ∷ (if codec.save_succeeds id e then trim id ∷ [] else []),
      record { engine = e; since_snapshot = 0 },
    )
    else ([], record { engine = e; since_snapshot = since })

-- The answer to a command that was applied, behind the effects so far.
unfoldable pub answer_command :
    Codec → Option ℕ → Text → ℕ → CommandResponse → List Effect → Engine → ℕ → List Effect × Worker
answer_command codec every id correlation_id response sent e since =
    let (last, w) = checkpoint codec every id e (add_u64 since 1) in
    elim (codec.write_response correlation_id response) [
      | none ↦ (sent ++ ack id ∷ [], record { engine = e; since_snapshot = since })
      | some json ↦ (sent ++ publish json ∷ ack id ∷ last, w)
    ]

unfoldable pub publish_all :
    Codec
    → Option ℕ
    → Text
    → ℕ
    → CommandResponse × Option EventBatch
    → Engine
    → ℕ
    → List Effect × Worker
publish_all codec every id correlation_id (response, none) e since =
    answer_command codec every id correlation_id response [] e since
publish_all codec every id correlation_id (response, some batch) e since =
    elim (codec.write_batch batch) [
      | none ↦ (ack id ∷ [], record { engine = e; since_snapshot = since })
      | some json ↦
          answer_command codec every id correlation_id response (add_event batch json ∷ []) e since
    ]

-- One round of the loop. `none` is a panic.
unfoldable pub handle : Codec → Option ℕ → Entry → Worker → Option (List Effect × Worker)
handle codec every entry w = elim (envelope_of codec entry) [
  | none ↦ some (ack entry.id ∷ [], w)
  | some env ↦ elim (apply env.account_id env.client_order_id env.command w.engine) [
    | none ↦ none
    | some (r, e) ↦ some (publish_all codec every entry.id env.correlation_id r e w.since_snapshot)
  ]
]

-- The loop over the entries that were read, in order.
unfoldable pub run_entries : Codec → Option ℕ → List Entry → Worker → Option (List Effect × Worker)
run_entries codec every [] w = some ([], w)
run_entries codec every (entry ∷ entries) w = elim (handle codec every entry w) [
  | none ↦ none
  | some (effects, w') ↦ elim (run_entries codec every entries w') [
    | none ↦ none
    | some (later, w'') ↦ some (effects ++ later, w'')
  ]
]

-- What a snapshot file holds of an engine: the fields that are not `serde(skip)`, read back with
-- defaults in place of those that are.
abbrev pub stored_book : Pair × OrderBook → Pair × OrderBook
stored_book (pair, book) = (pair, record book { dirty_levels = [] })

unfoldable pub stored : Engine → Engine
stored e = record e {
  books = map stored_book e.books;
  ledger = record (e.ledger) { dirty = [] };
  limits = default_limits;
}

-- The replay: the engine, and the id of the last entry that was applied.
unfoldable pub replay : Codec → List Entry → Option Text → Engine → Option (Engine × Option Text)
replay codec [] last e = some (e, last)
replay codec (entry ∷ entries) last e = elim (envelope_of codec entry) [
  | none ↦ replay codec entries last e
  | some env ↦ elim (apply env.account_id env.client_order_id env.command e) [
    | none ↦ none
    | some (_, e') ↦ replay codec entries (some entry.id) e'
  ]
]

-- The engine from a snapshot, with the limits of this process.
unfoldable pub restore : Option (Text × Engine) → Engine → Engine
restore none e = e
restore (some (_, state)) e = record state { limits = e.limits }

unfoldable pub range_start : Option (Text × Engine) → Option Text
range_start none = none
range_start (some (last_id, _)) = some last_id

-- `recover`. The range query is given where to start, behind an id or at the beginning; the id in
-- the result is the one that the group's cursor is set to.
unfoldable pub recover :
    Codec
    → (Option Text → List Entry)
    → Option (Text × Engine)
    → Engine
    → Option (Engine × Option Text)
recover codec xrange snapshot e =
    replay codec (xrange (range_start snapshot)) none (restore snapshot e)
