-- ===== src/Lib.antt =====
-- The TaskChampion sync server (core/, sqlite/ and server/ of this repository).
--
-- Replicas of a task database send versions to the server and read each other's. For each client the
-- server keeps one line of versions, each the child of the one before, and perhaps a snapshot.
--
-- Core/Types: the data of core/src/storage.rs, core/src/error.rs and core/src/server.rs. A `Uuid` is a
--   number (128 bits, only compared and passed on, nil is 0), a `DateTime` a number that only the
--   operations of chrono read, `Vec<u8>` a list of numbers.
-- Core/Txn: how a call ends (`ok`, `err`, `panic`) and the monad of calls on a transaction.
-- Core/Storage: the traits `Storage` and `StorageTxn` of core/src/storage.rs as a record of methods,
--   with the drop of a transaction; `with_txn` is a function body that opens one. `Core/Storage/Contract`
--   states the documentation of the traits as laws over what can be read,
--   and `Call` is a call on a transaction as data.
-- Core/Urgency: `ServerConfig`, `SnapshotUrgency::for_days`, `for_versions_since`; Thresholds below it.
-- Core/Server: `Server::get_child_version`, `add_version`, `add_snapshot`, `get_snapshot`, each with
--   the body of its transaction as `…_in`. Below it, `Runs` has how calls end on a storage that fulfils
--   the contract, and a module for each method has its refinement.
-- Core/InMemory: core/src/inmemory.rs. Below it, `Fulfils` proves the contract, `Drops` is about the
--   end of a transaction, and `Failures` about failed calls.
-- Sqlite: sqlite/src/lib.rs. `Tables` has the rows of the database and each SQL statement as a function
--   on them, `Columns` how a row is read, `Sqlite` the connection with its transaction and the methods of `Txn`. `Select`, `Rows`,
--   `Views`, `Updates`, `Reads`, `Calls` and `Insertion` lead to the contract in `Fulfils`; `Rollback` is
--   about transactions that do not commit, `Agreement` about the server on SQLite and in memory, `Races`
--   and `Forks` about two handlers that create the same client. `Faults` is the storage with statements
--   that fail, and `Threads` the program of sqlite/tests/concurrency.rs.
-- Core/History: the protocol's own description, which the server is proved to refine. `Chain` is a line
--   of versions, `Calls` the calls on the lines of all clients, `Invariant` that they stay lines.
-- Core/Protocol: what replicas can rely on, from call to call; `Foreign` is about a snapshot of no version.
-- Api: server/src/api. `Http` has the requests, responses and mod.rs, `Body` the loops that read a body,
--   `Handlers` the functions `service`; `AddVersion`, `NewClient`, `Access` and `Sessions` are about
--   them. `Concurrent` has the handlers of add_version.rs at work at once: each is a state machine
--   (`Stage`) that makes one transaction a turn, and a schedule says whose turn it is.
-- Web: server/src/lib.rs and `api_scope` of server/src/api/mod.rs, the routes to the handlers and the
--   headers of every response; `Safe`, `Plain` and `Headers` are about them.
-- CommandLine: server/src/bin/taskchampion-sync-server.rs, the declared arguments and `main` up to the run
--   of the HTTP server.
-- Core/Server/Tested, Core/Storage/Tested, Core/InMemory/Tested, Sqlite/Tested: the tests of
--   core/src/server.rs, core/src/inmemory.rs and sqlite/src/lib.rs as programs over a storage. Web/Tested
--   has those of server/src as programs that send requests, and CommandLine/Tested those of server/src/bin.
-- Tests: runs of those, and each result at a concrete input.
--
-- From outside the repository come, as arguments: the fresh identifier and the time of a call and the
-- days between two times (`Env`), how text and identifiers are converted (`TextOps`), a request's
-- headers, content type and chunks of body. Fresh identifiers are taken to be new (`IsFresh`), as
-- random ones are. For SQLite, `Crates` has the conversions of identifiers and of times to columns, and
-- `Lawful` what is relied on: each is read back, a time to some precision. A `HashMap` is its lookup
-- function, as the program never iterates over one. `Actix` matches paths and makes responses of errors;
-- `Clap` parses a command line, and `Documented` is what its documentation says of the values.
--
-- Arithmetic of fixed width wraps around (release builds; with overflow checks it panics instead):
-- `u32` in `versions_since` and in the thresholds of versions, `i64` in those of days. The refinement
-- of `add_version` asks for fewer than 2 ^ 32 - 1 versions of a client, where the counter fits.
--
-- The loop of `add_snapshot` recurs on its own counter. The loop of the `add_version` handler takes
-- fuel; two rounds are shown to be enough where no other handler is at work, and three transactions where
-- others are at work on the storage in memory. The walk over the versions in sqlite/tests takes fuel for
-- each version and one more.
-- Queries of SQLite return the first matching row in the order of insertion.
--
-- Storage transactions run one at a time, as the lock in memory and BEGIN IMMEDIATE make them.
--
-- Errors of the database are a plan of faults, which says for each call whether it fails; a failed COMMIT
-- is taken to have changed nothing.
--
-- In the orders of transactions of Api/Sessions, handlers create a client that exists only where `again`
-- is true, as handlers at work at once may. The storage in memory refuses that; on SQLite it resets the
-- client (`Races`, `Forks`), so that the result about SQLite leaves it out.
--
-- Not modelled: what a panic inside a transaction leaves in memory, which poisons the lock and, where
-- the drop panics too, aborts the program (the methods called there do not panic); logging, the run of
-- the HTTP server, failures of memory, and SQLite's waits for a lock.
pub mod Prelude
pub mod HashMap
pub mod Core
pub mod Api
pub mod Sqlite
pub mod Web
pub mod CommandLine
mod Tests
