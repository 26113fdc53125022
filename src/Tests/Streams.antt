-- ===== src/Tests/Streams.antt =====
-- The loop, its recovery and the feeds on small inputs.
use cex_matching_engine.Prelude.{◌≡◌, refl, some, none, [], ◌∷◌, List, Option, true, add_u64}
use cex_matching_engine.Prelude.Text.{Text, codes}
use cex_matching_engine.Reject.{ok}
use cex_matching_engine.Book.Types.{bid, limit}
use cex_matching_engine.Command.{CommandResponse, Event, trade, order_accepted}
use cex_matching_engine.Engine.State.{new_engine}
use cex_matching_engine.Projection.{new_store, apply_batch}
use cex_matching_engine.Projection.Levels.{shown}
use cex_matching_engine.Feed.{public_feed}
use cex_matching_engine.Feed.Client.{followed, public_feed-follows}
use cex_matching_engine.Runtime.{
  Codec, Entry, Worker, Effect, ack, add_event, publish, run_entries, handle, envelope_of,
  publish_all, answer_command, checkpoint, recover, stored,
}
use cex_matching_engine.Runtime.Clean.{IsClean, apply-IsClean}
use cex_matching_engine.Runtime.Recovery.{engine_of, recover_run, recover_snapshot}
use cex_matching_engine.Runtime.Stream.{Goes, run_entries-Goes, WritesBatches}
use cex_matching_engine.Tests.Sample.{sol_usd}
use cex_matching_engine.Tests.Commands.{
  a_deposit, first_batch, after_deposit, deposit_runs, two_deltas,
}

-- Serialisation that reads every text as one deposit.
abbrev codec : Codec
codec = record {
  read_command = λ _.
      some
        (record { correlation_id = 5; account_id = 1; client_order_id = 7; command = a_deposit });
  write_batch = λ _. some (codes "batch");
  write_response = λ _ _. some (codes "response");
  save_succeeds = λ _ _. true;
}

abbrev entry : Entry
entry = record { id = codes "1-0"; payload = some (codes "deposit") }

abbrev started : Worker
started = record { engine = new_engine; since_snapshot = 0 }

abbrev ended : Worker
ended = record { engine = after_deposit; since_snapshot = 1 }

abbrev sent : List Effect
sent = add_event first_batch (codes "batch") ∷ publish (codes "response") ∷ ack (codes "1-0") ∷ []

one_runs : run_entries codec none (entry ∷ []) started ≡ some (sent, ended)
unfolding run_entries handle envelope_of publish_all answer_command checkpoint add_u64
one_runs = rw (deposit_runs, run_entries, handle) refl

new-IsClean : IsClean new_engine.limits new_engine
new-IsClean = record { same_limits = refl; ledger = refl; books = tt }

-- The stream from the beginning, and behind the entry.
abbrev stream : Option Text → List Entry
stream none = entry ∷ []
stream (some id) = []

apply-IsClean_example : IsClean new_engine.limits after_deposit
apply-IsClean_example =
    apply-IsClean new_engine.limits 1 7 a_deposit new_engine
      (CommandResponse.deposit (ok 50), some first_batch) after_deposit deposit_runs new-IsClean

recover_run_example : engine_of (recover codec stream none new_engine) ≡ some after_deposit
recover_run_example =
    recover_run codec none (entry ∷ []) new_engine 0 sent ended stream one_runs refl

recover_snapshot_example :
    engine_of (recover codec stream (some (codes "1-0", stored after_deposit)) new_engine)
    ≡ engine_of (recover codec stream none new_engine)
recover_snapshot_example =
    recover_snapshot codec none (entry ∷ []) [] (codes "1-0") new_engine 0 sent ended stream
      new-IsClean one_runs refl refl

codec-WritesBatches : WritesBatches codec
codec-WritesBatches b = (codes "batch", refl)

run_entries-Goes_example : Goes 0 sent 1
run_entries-Goes_example =
    run_entries-Goes codec none (entry ∷ []) started ended sent codec-WritesBatches one_runs

public_feed-follows_example :
    followed bid 100 (shown sol_usd bid 100 new_store.books) (public_feed sol_usd two_deltas)
    ≡ shown sol_usd bid 100 (apply_batch two_deltas new_store).books
public_feed-follows_example = public_feed-follows sol_usd bid 100 two_deltas new_store

abbrev traded : List Event
traded =
    trade (record {
      pair = sol_usd;
      price = 100;
      qty = 5;
      maker_id = 0;
      taker_id = 1;
      taker_side = bid;
      maker_account = 2;
      taker_account = 1;
    })
    ∷ order_accepted (record {
      order_id = 1;
      account_id = 1;
      pair = sol_usd;
      side = bid;
      order_type = limit;
      price = 100;
      size = 5;
    })
    ∷ []
