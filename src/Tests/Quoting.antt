-- ===== src/Tests/Quoting.antt =====
-- The bot, the files of a snapshot and the projection's restart on small inputs.
use mathlib.Core.List.{cons≢nil, head-eq_of_cons-eq, tail-eq_of_cons-eq}
use mathlib.Core.Option.{some-injective}
use cex_matching_engine.Prelude.{
  refl, ℕ, ◌≤◌, ◌≡◌, inl, inr, Bool, true, Bool-cases, ◌++◌, add_u64, sym, ap, ◌∙◌, ◌≢◌, Option,
  none, some, List, [], ◌∷◌, arith, All, if◌then◌else◌, subst,
}
use cex_matching_engine.Prelude.Int.{pos}
use cex_matching_engine.Prelude.Text.{Text, codes, text_eqb}
use cex_matching_engine.Command.{EventBatch}
use cex_matching_engine.Runtime.{Entry}
use cex_matching_engine.Bot.{Bot, BookPrices, tick, highest, lowest}
use cex_matching_engine.Bot.Quotes.{IsTrend, IsMade, Accepted, ClearOf}
use cex_matching_engine.Bot.Ticks.{tick-mid, tick-IsMade, tick-Accepted, tick-ClearOf}
use cex_matching_engine.Projection.{BookState}
use cex_matching_engine.Projection.Tail.{
  tail, start_books, tail_round, tail_entries, persist, bootstrap_entries, read_entry,
}
use cex_matching_engine.Projection.Restart.{
  tail_restart, Reads, first_tail, Standing, IsKept, sent, batches, joined,
}
use cex_matching_engine.Projection.Standing.{Ranges, IsEarlier}
use cex_matching_engine.Snapshot.Files.{
  Snapshot, Disk, at_rename, save, load, RoundTrips, current_version, save-load,
}
use cex_matching_engine.Tests.Sample.{sol_usd}

abbrev bot : Bot
bot = record {
  rng = 12345;
  next_cid = 1000;
  mid = 100;
  trend = pos 1;
  resting = 3 ∷ 4 ∷ [];
  ticks = 24;
}

abbrev book : BookPrices
book = record { bids = 98 ∷ 99 ∷ []; asks = 101 ∷ 102 ∷ [] }

abbrev answer : ℕ → Option ℕ
answer number = some number

bot-IsTrend : IsTrend bot.trend
bot-IsTrend = inr (inr refl)

best_bid : highest book.bids ≡ some 99
unfolding highest
best_bid = refl

best_ask : lowest book.asks ≡ some 101
unfolding lowest
best_ask = refl

tick-IsMade_example :
    let (calls, b') = tick sol_usd answer (some book) bot in
    (60 ≤ b'.mid) × (b'.mid ≤ 160) × IsTrend b'.trend × All (IsMade b'.mid) calls
tick-IsMade_example = tick-IsMade sol_usd answer (some book) bot bot-IsTrend

tick-ClearOf_example : All (ClearOf 99 101) (tick sol_usd answer (some book) bot).0
tick-ClearOf_example =
    tick-ClearOf sol_usd answer book bot 99 101 bot-IsTrend best_bid best_ask (omega arith)
      (omega arith) (omega arith)

tick-Accepted_example : All (Accepted 100) (tick sol_usd answer (some book) bot).0
tick-Accepted_example =
    let (down, up) =
      tick-mid sol_usd answer book bot 99 101 best_bid best_ask (omega arith) (omega arith) in
    tick-Accepted sol_usd answer (some book) bot 100 bot-IsTrend up down

-- Serialisation of a state that is a number.
abbrev spell : Snapshot ℕ → Option Text
spell s = some (s.version ∷ s.state ∷ s.last_id)

abbrev unspell : Text → Option (Snapshot ℕ)
unspell (version ∷ state ∷ last_id) =
    some (record { version = version; last_id = last_id; state = state })
unspell _ = none

spell-RoundTrips : RoundTrips spell unspell
spell-RoundTrips snapshot bytes written =
    subst (λ (t : Text). unspell t ≡ some snapshot) (some-injective _ _ written) refl

abbrev disk : Disk
disk = record { tmp = none; file = some (1 ∷ 5 ∷ codes "1-0") }

save-load_example :
    let (ok, disk') = save spell at_rename (codes "2-0") 6 disk in
    load unspell disk' ≡ (
      if ok
      then some (record { version = current_version; last_id = codes "2-0"; state = 6 })
      else load unspell disk)
save-load_example = save-load spell unspell at_rename (codes "2-0") 6 disk spell-RoundTrips

abbrev batch : EventBatch
batch = record { seq = 3; events = [] }

abbrev read : Text → Option EventBatch
read text = some batch

abbrev entry : Text → Entry
entry id = record { id = id; payload = some (codes "batch") }

abbrev stream : List Entry
stream = entry (codes "1-0") ∷ entry (codes "2-0") ∷ entry (codes "3-0") ∷ []

-- The entries behind the one with an id.
unfoldable behind_id : Text → List Entry → List Entry
behind_id id [] = []
behind_id id (x ∷ xs) = if text_eqb id x.id then xs else behind_id id xs

-- Ranges of the three entries, and of the first one alone.
abbrev behind : Option Text → List Entry
behind none = stream
behind (some id) = if text_eqb id (codes "0") then stream else behind_id id stream

abbrev early : Option Text → List Entry
early none = entry (codes "1-0") ∷ []
early (some id) = if text_eqb id (codes "0") then entry (codes "1-0") ∷ [] else []

append_cons≢nil : (xs ys : List Entry) (x : Entry) → xs ++ x ∷ ys ≢ []
append_cons≢nil [] ys x = cons≢nil
append_cons≢nil (z ∷ xs) ys x = cons≢nil

-- The range behind an entry, from the range behind one that is equal to it.
behind-head :
    (x y : Entry) (xs ys : List Entry)
    → x ∷ xs ≡ y ∷ ys
    → behind (some x.id) ≡ xs
    → behind (some y.id) ≡ ys
behind-head x y xs ys parts range =
    ap (λ (z : Entry). behind (some z.id)) (sym (head-eq_of_cons-eq parts))
    ∙ range
    ∙ tail-eq_of_cons-eq parts

behind-entry : (xs ys : List Entry) (x : Entry) → stream ≡ xs ++ x ∷ ys → behind (some x.id) ≡ ys
unfolding behind_id
behind-entry [] ys x parts = behind-head (entry (codes "1-0")) x _ ys parts refl
behind-entry (_ ∷ []) ys x parts =
    behind-head (entry (codes "2-0")) x _ ys (tail-eq_of_cons-eq parts) refl
behind-entry (_ ∷ _ ∷ []) ys x parts =
    behind-head (entry (codes "3-0")) x _ ys (tail-eq_of_cons-eq (tail-eq_of_cons-eq parts)) refl
behind-entry (_ ∷ _ ∷ _ ∷ xs) ys x parts = absurd (
    append_cons≢nil xs ys x
      (sym (tail-eq_of_cons-eq (tail-eq_of_cons-eq (tail-eq_of_cons-eq parts)))))

behind-Ranges : Ranges stream behind
behind-Ranges = record { whole = refl; from_zero = refl; after = behind-entry }

early-IsEarlier : IsEarlier early behind
early-IsEarlier none = (entry (codes "2-0") ∷ entry (codes "3-0") ∷ [], refl)
early-IsEarlier (some id) = elim (Bool-cases (text_eqb id (codes "0"))) [
  | inl zero_id ↦ rw (zero_id) (entry (codes "2-0") ∷ entry (codes "3-0") ∷ [], refl)
  | inr other ↦ rw (other) (behind_id id stream, refl)
]

abbrev saved : Text → BookState → Bool
saved id s = true

-- A snapshot after each batch; one entry in each of the replies.
abbrev replies : List (List Entry)
replies = (entry (codes "2-0") ∷ []) ∷ (entry (codes "3-0") ∷ []) ∷ []

replies-Reads :
    Reads read stream behind behind-Ranges (some 1) saved replies (first_tail read early none)
unfolding tail_round tail_entries persist start_books bootstrap_entries read_entry behind_id add_u64
replies-Reads = ((entry (codes "3-0") ∷ [], refl), (([], refl), tt))

tail_restart_example :
    let (effects, t') = tail read (some 1) saved replies (first_tail read early none) in
    (rest : List Entry) × (behind (some (first_tail read early none).last_id)
      ≡ joined replies ++ rest)
    × Standing read stream behind behind-Ranges (some 1) saved t' rest
    × (sent effects ≡ batches read (joined replies))
    × All (IsKept read stream behind behind-Ranges (some 1) saved) effects
tail_restart_example =
    tail_restart read stream behind behind-Ranges (some 1) saved early early-IsEarlier none tt
      replies replies-Reads
