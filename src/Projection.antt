-- ===== src/Projection.antt =====
-- bin/api/book.rs: the order-book projection that the API keeps from the event stream. The lock
-- makes a batch one step, so that the store is its state.
pub mod Levels
pub mod Tail
pub mod Events
pub mod Outcomes
pub mod Mirror
pub mod Standing
pub mod Restart
use cex_matching_engine.Prelude.{
  ℕ, zero, suc, min, Option, none, some, List, [], ◌∷◌, map, reverse, nat_eqb, if◌then◌else◌,
}
use cex_matching_engine.Prelude.HashMap
use cex_matching_engine.Prelude.HashMap.{HashMap}
use cex_matching_engine.Prelude.BTreeMap
use cex_matching_engine.Prelude.BTreeMap.{BTreeMap}
use cex_matching_engine.Market.{Pair, market_pair_eq}
use cex_matching_engine.Book.Types.{Side, bid, ask}
use cex_matching_engine.Command.{Event, EventBatch, BookDelta, book_delta}

pub record Book : Type 0 where
  pub bids : BTreeMap ℕ
  pub asks : BTreeMap ℕ

abbrev pub empty_book : Book
empty_book = record { bids = []; asks = [] }

pub record BookState : Type 0 where
  pub books : HashMap Pair Book
  pub last_seq : ℕ

-- `BookStore::new`
abbrev pub new_store : BookState
new_store = record { books = []; last_seq = 0 }

-- A level is removed at quantity 0, and else set.
unfoldable pub set_level : ℕ → ℕ → BTreeMap ℕ → BTreeMap ℕ
set_level price qty levels =
    if nat_eqb qty 0 then BTreeMap.remove price levels else BTreeMap.insert price qty levels

unfoldable pub apply_delta : BookDelta → Book → Book
apply_delta d book = elim d.side [
  | bid ↦ record book { bids = set_level d.price d.qty book.bids }
  | ask ↦ record book { asks = set_level d.price d.qty book.asks }
]

unfoldable pub apply_event : Event → HashMap Pair Book → HashMap Pair Book
apply_event (book_delta d) books =
    HashMap.insert d.pair (apply_delta d (HashMap.get_or empty_book d.pair books)) books
apply_event _ books = books

unfoldable pub apply_events : List Event → HashMap Pair Book → HashMap Pair Book
apply_events [] books = books
apply_events (event ∷ events) books = apply_events events (apply_event event books)

unfoldable pub apply_batch : EventBatch → BookState → BookState
apply_batch batch s = record { books = apply_events batch.events s.books; last_seq = batch.seq }

pub record BookLevel : Type 0 where
  pub price : ℕ
  pub qty : ℕ

pub record BookSnapshot : Type 0 where
  pub pair : Pair
  pub sequence : ℕ
  pub bids : List BookLevel
  pub asks : List BookLevel

abbrev pub take {ℓ} : {A : Type ℓ} → ℕ → List A → List A
take zero xs = []
take (suc n) [] = []
take (suc n) (x ∷ xs) = x ∷ take n xs

abbrev pub level_row : ℕ × ℕ → BookLevel
level_row (price, qty) = record { price = price; qty = qty }

-- `BookStore::snapshot`
unfoldable pub snapshot : Pair → ℕ → BookState → BookSnapshot
snapshot pair depth s =
    let book = HashMap.get_or empty_book pair s.books in
    record {
      pair = pair;
      sequence = s.last_seq;
      bids = map level_row (take depth (reverse book.bids));
      asks = map level_row (take depth book.asks);
    }

-- `get_book` on a pair that was parsed: the depth asked for, 20 by default and 1000 at most.
unfoldable pub get_book : Pair → Option ℕ → BookState → BookSnapshot
get_book pair none s = snapshot pair (min 20 1000) s
get_book pair (some depth) s = snapshot pair (min depth 1000) s

-- `bootstrap` over the entries after the snapshot; an entry that does not parse is passed over.
unfoldable pub bootstrap : List (Option EventBatch) → BookState → BookState
bootstrap [] s = s
bootstrap (none ∷ entries) s = bootstrap entries s
bootstrap (some batch ∷ entries) s = bootstrap entries (apply_batch batch s)
