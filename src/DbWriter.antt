-- ===== src/DbWriter.antt =====
-- bin/db_writer.rs: the ids under which it stores the events of a batch, and the time that it reads
-- off an id. The children have its tables and its loop.
pub mod Tables
pub mod Stored
pub mod BalanceRows
pub mod OrderRows
pub mod Redelivery
pub mod Prints
pub mod Upserts
pub mod Charts
pub mod Loop
pub mod Reading
pub mod Rounds
pub mod Trims
pub mod Retention
pub mod Pruning
use cex_matching_engine.Prelude.{
  ℕ, ◌≡◌, ◌≢◌, ◌∷◌, ◌++◌, Bool, true, false, Option, none, some, [], arith, ltb, if◌then◌else◌,
  nat_eqb, All, All-append, suc,
}
use cex_matching_engine.Prelude.Int.{ℤ, pos, opposite, negsuc, i64_size}
use cex_matching_engine.Prelude.Text.{
  Text, split_once, split_once-none, show, show_digits-AllDigits, read_digits, AllDigits,
}

-- `format!("{}:{}", batch.seq, i)`
unfoldable pub event_id : ℕ → ℕ → Text
event_id seq i = show seq ++ b':' ∷ show i

-- within `w` bits, of which `size` is half the range
abbrev in_range : ℕ → ℤ → Option ℤ
in_range size (pos n) = if ltb n size then some (pos n) else none
in_range size (negsuc n) = if ltb n size then some (negsuc n) else none

abbrev unsigned : ℕ → Option ℕ → Option ℤ
unsigned size none = none
unsigned size (some n) = in_range size (pos n)

abbrev negated : ℕ → Option ℕ → Option ℤ
negated size none = none
negated size (some n) = in_range size (opposite n)

-- `str::parse` of a signed integer
unfoldable pub parse_signed : ℕ → Text → Option ℤ
parse_signed size [] = none
parse_signed size (c ∷ []) = unsigned size (read_digits 0 (c ∷ []))
parse_signed size (c ∷ d ∷ s) =
    if nat_eqb c b'-'
    then negated size (read_digits 0 (d ∷ s))
    else if nat_eqb c b'+'
    then unsigned size (read_digits 0 (d ∷ s))
    else unsigned size (read_digits 0 (c ∷ d ∷ s))

-- `entry_millis`
unfoldable pub entry_millis : Text → Option ℤ
entry_millis id = elim (split_once b'-' id) [
  | none ↦ none
  | some (ms, _) ↦ parse_signed i64_size ms
]

no_dash : (s : Text) → AllDigits s → All (λ c. c ≢ b'-') s
no_dash [] h = tt
no_dash (c ∷ s) h = ((λ e. omega arith), no_dash s h.1)

show-no_dash : (n : ℕ) → All (λ c. c ≢ b'-') (show n)
unfolding show
show-no_dash n = no_dash (show n) (show_digits-AllDigits (suc n) n)

-- In the id `seq:index` that `apply_event` is handed, `entry_millis` finds no time, whatever the
-- batch.
pub entry_millis-event_id : (seq i : ℕ) → entry_millis (event_id seq i) ≡ none
unfolding entry_millis event_id
entry_millis-event_id seq i = rw (
  split_once-none b'-' (event_id seq i) (
      All-append (λ c. c ≢ b'-') (show seq) (b':' ∷ show i) (show-no_dash seq)
        ((λ e. omega arith), show-no_dash i)),
  entry_millis,
)
