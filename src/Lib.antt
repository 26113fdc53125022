-- ===== src/Lib.antt =====
-- A model of the matching engine of a currency exchange, translated from its Rust sources, with the
-- properties that make it correct.
--
-- The program. A client signs up or logs in at the API (src/bin/api/auth.rs) and sends requests under
-- a token (src/bin/api/main.rs). A handler turns a request into a command, logs it to a stream, and
-- waits for the response with its id. The runtime (src/runtime.rs) reads the stream and calls `apply`
-- (src/engine.rs) with the account and the client's own key. `apply` drops a repeated key, runs the
-- command against the order books (src/book.rs) and the balances (src/ledger.rs), and returns a
-- response and a batch of events with a sequence number. The runtime writes the batch to another
-- stream; the API (src/bin/api/book.rs) keeps a projection of the books from it and feeds sockets
-- (src/bin/api/ws.rs), and the database writer (src/bin/db_writer.rs) stores it in tables, which the
-- queries of the API read. A bot (src/bin/bot.rs) quotes through the API.
--
-- The files.
--   Prelude            Boolean tests, lists, 64-bit words, integers, and the standard library's
--                      HashMap, BTreeMap and strings as far as the sources use them
--   Market, Reject     src/market.rs and src/error.rs; the texts of pairs in Market/Symbol
--   Book               src/book.rs. Book/Types has the data, Book/Levels the functions that only
--                      read, Book/Matching `add_order`, Book/Cancel `cancel_order`. Book/Fills and
--                      Book/Reach say what matching promises with no book: a list of makers that an
--                      order takes from in turn. Book/Queue, Book/Rounds and Book/Sweep show that
--                      the two loops do that, Book/Priority that `add_order` does, Book/Ending
--                      that the outer loop ends by its own tests, Book/SelfTrade
--                      and Book/BuyCost that the two predictions agree with it. Book/Order,
--                      Book/Crossing, Book/Uncrossed and Book/Cancelling are about the whole book.
--                      Book/Placing, Book/Deltas, Book/Marking and Book/Reports are about the deltas
--   Ledger             src/ledger.rs. Ledger/Balances, Ledger/Total and Ledger/Writes have the laws
--                      of single writes, Ledger/Settlement and Ledger/Reserving those of the operations,
--                      Ledger/Marks the marks of changed entries
--   Command            src/command.rs and src/event.rs
--   Engine             src/engine.rs. Engine/State has the data and the window of keys,
--                      Engine/Operations `place_order`, `deposit` and `cancel_order`, Engine/Apply
--                      `apply`; Engine/Frame and Engine/Books say what a command leaves alone and
--                      what it does to the books, Engine/Endings how an order ends, Engine/Accounts and
--                      Engine/Notes what it does to balances; the others have the properties
--   Projection         src/bin/api/book.rs: the store of the books. Projection/Tail has the start
--                      from a snapshot and the rounds of `tail`; Projection/Levels is about a batch,
--                      Projection/Standing and Projection/Restart are about where the books stand in
--                      the stream; Projection/Events, Projection/Outcomes and Projection/Mirror lay
--                      them beside the engine
--   Runtime            src/runtime.rs: the loop and its effects, and recovery. Runtime/Clean has the
--                      fields that a snapshot leaves out, Runtime/Replay and Runtime/Recovery the
--                      replay against the loop, Runtime/Stream the batches on the stream
--   Feed               src/bin/api/ws.rs, what the feeds send
--   Candle             src/candle.rs
--   Snapshot           src/snapshot.rs: the ids of stream entries; Snapshot/Files has `save` and
--                      `load`, with the faults of every step of a save
--   DbWriter           src/bin/db_writer.rs: ids and times. DbWriter/Tables has the tables as a
--                      state and the statements of `apply_event`, DbWriter/Loop a round of the loop,
--                      DbWriter/Retention the sweeps. DbWriter/Stored, DbWriter/BalanceRows,
--                      DbWriter/OrderRows and DbWriter/Redelivery are about a second delivery;
--                      DbWriter/Prints, DbWriter/Upserts and DbWriter/Charts about candles;
--                      DbWriter/Reading, DbWriter/Rounds, DbWriter/Trims and
--                      DbWriter/Pruning about the loop
--   Api                src/bin/api/main.rs and src/bin/api/auth.rs: errors and responses. Api/Auth has
--                      the tokens and the extractors, Api/Accounts sign-up and log-in, Api/Handlers
--                      the routes that submit a command, Api/Pending the requests that wait, as a
--                      step relation in which the task of a client that goes away is dropped,
--                      Api/Queries the answers from the tables. The statements on users follow the
--                      table in migrations/20260723200240_create_users.sql. Api/Guards, Api/Tokens,
--                      Api/Logins, Api/Waiting, Api/Arrival and Api/Charting have the properties,
--                      Api/Replies and Api/Steps what each step keeps, Api/Changes what it does to
--                      one request, and Api/Later what holds in all later states
--   Bot                src/bin/bot.rs: its generator and a round of its loop; Bot/Quotes and
--                      Bot/Ticks have the properties
--   Tests              runs on small inputs, with the theorems applied to them
--
-- The reading of the sources. A `u64` is a natural number. Its operators wrap, as they do in the
-- release build that the Dockerfile makes; checked and saturating operations are written out. An
-- `i64` is an integer, and a cast between the two is written out. A panic is `none`. A HashMap is a
-- list of entries with one for each key, and what the program leaves to the order in which a map or a
-- set is drained is here the order of that list. A VecDeque is a list, front first. A BTreeMap is a
-- list in the order of its keys. A table of the database is a list of rows under its primary key.
--
-- Bounds and fuel. The outer loop of `add_order` runs on fuel: one more than the number of levels
-- that it faces. A round uses up a level or fills the taker, so that the loop ends by its own tests.
--
-- Not modelled: the connections to redis and the database and their failures, of which calls are
-- effects in a list; the columns of the database that only say when a row was written; serialisation,
-- the hashing of passwords and the signing of tokens, which are arguments; the routing of HTTP, the
-- reading of bodies and the sockets; the start-up of the programs, and the bot's sign-up and renewal
-- of tokens; the migration program, the test helpers and the benchmarks.
pub mod Prelude
pub mod Market
pub mod Reject
pub mod Api
pub mod Book
pub mod Ledger
pub mod Command
pub mod Engine
pub mod Projection
pub mod Runtime
pub mod Feed
pub mod Bot
pub mod Candle
pub mod Snapshot
pub mod DbWriter
pub mod Tests
