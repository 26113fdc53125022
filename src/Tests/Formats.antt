-- ===== src/Tests/Formats.antt =====
-- Texts: pairs, stream ids and event ids.
use cex_matching_engine.Prelude.{◌≡◌, refl, some, none}
use cex_matching_engine.Prelude.Text.{codes, split_once, parse_u64, read_digits}
use cex_matching_engine.Market.Symbol.{parse_pair, show_pair, parse_pair-show_pair}
use cex_matching_engine.Snapshot.{parse_id}
use cex_matching_engine.DbWriter.{entry_millis, event_id, entry_millis-event_id}
use cex_matching_engine.Tests.Sample.{sol_usd}

sol_usd_parses : parse_pair (codes "SOL-USD") ≡ some sol_usd
unfolding parse_pair split_once
sol_usd_parses = refl

parse_pair-show_pair_example : parse_pair (show_pair sol_usd) ≡ some sol_usd
parse_pair-show_pair_example = parse_pair-show_pair sol_usd

first_id : parse_id (codes "1700-2") ≡ some (1700, 2)
unfolding parse_id split_once parse_u64 read_digits
first_id = refl

second_id : parse_id (codes "1700-10") ≡ some (1700, 10)
unfolding parse_id split_once parse_u64 read_digits
second_id = refl

entry_millis-event_id_example : entry_millis (event_id 7 0) ≡ none
entry_millis-event_id_example = entry_millis-event_id 7 0
