-- ===== src/Tests/Commands.antt =====
-- The engine and the projection on small inputs.
use cex_matching_engine.Prelude.{◌≡◌, refl, some, none, [], ◌∷◌, arith, not, true, ◌⊎◌}
use cex_matching_engine.Prelude.HashMap
use cex_matching_engine.Market.{usd}
use cex_matching_engine.Ledger
use cex_matching_engine.Engine.Operations
use cex_matching_engine.Engine.Apply.{
  run_command, dispatch, emit, balance_events, balance_event, stamp,
}
use cex_matching_engine.Engine.State.{evict, forget_key}
use cex_matching_engine.Prelude.{add_u64, checked_add}
use cex_matching_engine.Book.Types.{bid}
use cex_matching_engine.Reject.{ok}
use cex_matching_engine.Command.{
  Command, CommandResponse, EventBatch, balance_changed, duplicate, book_delta,
}
use cex_matching_engine.Engine.State.{Engine, new_engine, insert_key, dedup_window}
use cex_matching_engine.Engine.Apply.{apply}
use cex_matching_engine.Engine.Window.{IsWindow, holds, recent_keys, insert_key-IsWindow}
use cex_matching_engine.Engine.Retry.{Numbered, apply-Numbered, apply_retry}
use cex_matching_engine.Tests.Sample.{sol_usd}
use cex_matching_engine.Projection.{apply_batch, new_store}
use cex_matching_engine.Projection.Levels.{shown, reported, apply_batch_again}

abbrev pub a_deposit : Command
a_deposit = Command.deposit (record { amount = 50; currency = usd })

abbrev pub first_batch : EventBatch
first_batch = record {
  seq = 0;
  events =
      balance_changed (record { account_id = 1; currency = usd; available = 50; reserved = 0 })
      ∷ [];
}

abbrev pub after_deposit : Engine
after_deposit = record new_engine {
  ledger = record {
    balances = (1, (usd, record { available = 50; reserved = 0 }) ∷ []) ∷ [];
    dirty = [];
  };
  dedup = record { seen = (1, 7) ∷ []; order = (1, 7 ∷ []) ∷ [] };
  next_seq = 1;
}

pub deposit_runs :
    apply 1 7 a_deposit new_engine
    ≡ some ((CommandResponse.deposit (ok 50), some first_batch), after_deposit)
unfolding apply insert_key HashMap.contains run_command dispatch emit balance_events
    Ledger.take_dirty Operations.deposit checked_add Ledger.held HashMap.get Ledger.deposit
    Ledger.mark HashMap.with_elem Ledger.set_balance balance_event HashMap.insert Ledger.balance_of
    HashMap.get_or add_u64 stamp evict forget_key
deposit_runs = refl

empty-IsWindow : IsWindow dedup_window new_engine.dedup
unfolding HashMap.get_or HashMap.get HashMap.contains
empty-IsWindow = record { agree = λ a id. refl; distinct = λ a. tt; bounded = λ a. omega arith }

insert_key-IsWindow_example :
    let (fresh, d') = insert_key dedup_window 1 7 new_engine.dedup in
    IsWindow dedup_window d'
    × (fresh ≡ not (holds 7 (recent_keys 1 new_engine.dedup)))
    × ((fresh ≡ true) ⊎ (d' ≡ new_engine.dedup))
insert_key-IsWindow_example = insert_key-IsWindow dedup_window 1 7 new_engine.dedup empty-IsWindow

apply-Numbered_example : Numbered new_engine (some first_batch) after_deposit
apply-Numbered_example =
    apply-Numbered 1 7 a_deposit new_engine (CommandResponse.deposit (ok 50), some first_batch)
      after_deposit deposit_runs

apply_retry_example : apply 1 7 a_deposit after_deposit ≡ some ((duplicate, none), after_deposit)
apply_retry_example =
    apply_retry 1 7 a_deposit new_engine (CommandResponse.deposit (ok 50), some first_batch)
      after_deposit a_deposit empty-IsWindow deposit_runs

-- A level that is set twice in one batch.
abbrev pub two_deltas : EventBatch
two_deltas = record {
  seq = 4;
  events =
      book_delta (record { pair = sol_usd; side = bid; price = 100; qty = 5 })
      ∷ book_delta (record { pair = sol_usd; side = bid; price = 100; qty = 2 })
      ∷ [];
}

apply_batch_again_example :
    let once = apply_batch two_deltas new_store in
    let twice = apply_batch two_deltas once in
    (shown sol_usd bid 100 twice.books ≡ shown sol_usd bid 100 once.books)
    × (shown sol_usd bid 100 once.books
        ≡ reported sol_usd bid 100 (shown sol_usd bid 100 new_store.books) two_deltas.events)
    × (twice.last_seq ≡ once.last_seq)
apply_batch_again_example = apply_batch_again two_deltas new_store sol_usd bid 100
