-- ===== src/Lib.antt =====
-- paavo: a self-hosted runner of hardware-in-the-loop tests. A job is a tar of a crate; it is built, waits
-- for a board, runs on it, and ends with an outcome.
--
-- The program's parts and the files that model them:
--
-- Proto models crates/paavo-proto/src: priorities, sources, states and outcomes of jobs (Proto/Job:
-- job.rs, ids.rs), boards and selectors (Proto/Board: board.rs), the reading and the canonical form of
-- probe selectors (Proto/Selector: board.rs), log frames (Proto/Log: log.rs), the tallies of the dashboard
-- (Proto/Stats: stats.rs).
--
-- Db models crates/paavo-db/src, with one function per statement and under its Rust name. Db/Store has the
-- tables, the errors and the effects: a table is the list of its rows in insertion order, a `WHERE` clause
-- a Boolean test, `ORDER BY` a stable insertion sort (no theorem relies on how SQL breaks ties). Rows are
-- held decoded; a number column holds what Rust hands over, and `from_row` refuses a `u64` that does not
-- fit 63 bits, or a counter that does not fit 32. Db/Board is board.rs, Db/Job is job.rs (Queries, Moves,
-- Restart for `abort_interrupted_jobs`, Search for the fuzzy search), Db/Cache is build_cache.rs, Db/Log
-- is log.rs, Db/Schedule is schedule.rs, Db/Like is like.rs with the meaning of SQL's LIKE, and Db/Codecs
-- the texts that stand for enums.
--
-- Core models crates/paavo-core/src: Scheduler (scheduler.rs), Quarantine (quarantine.rs), Enqueue
-- (enqueue.rs, selector.rs, error.rs), Cancel (cancel.rs), BuildCache (build_cache.rs). The test of
-- starvation is on `i64` times in the source; here times are natural numbers and the difference is written
-- as a sum, for a threshold that is not negative.
--
-- Daemon models crates/paavod/src: Registry (cancellation.rs), State (app_state.rs), Dispatch
-- (dispatch.rs), Loops (the two loops of dispatch.rs), Handlers (routes/jobs.rs, routes/boards.rs,
-- routes/admin.rs), Steps (main.rs, and histories), LogSink (log_sink.rs), Nightly (cron.rs), Drain
-- (shutdown.rs), Stream (`stream_job` of routes/jobs.rs, with job_logs.rs and
-- crates/paavo-proto/src/stream.rs). The handlers and the dispatch loop share the store, the inventory and
-- the two registries; each change happens under the lock of the store, so a history is a list of `Step`s,
-- and `run` takes them in any order. A build task has phases, one for each place where another action can
-- come between, and the dispatch thread has a pick that it has not claimed yet. A pick of a build takes
-- its slot with it, and a claim registers the job at once, where the source does so right after it
-- releases the lock.
--
-- Some sections of the source that take the lock more than once are one step here: the refresh of the
-- inventory after a statement on boards, and a nightly run with its schedule row and its enqueues. Paths
-- are texts as the store holds them.
--
-- Runner models crates/paavo-runner/src: Watchdog (watchdog.rs), Worker (worker.rs, with the events of
-- crates/paavo-probe/src/event.rs), and Steps, the relation in which both threads, the commands and the
-- clock take their steps in any order. A thread reads the clock once in a step, and a step of a thread is
-- what it does between two points where it can be seen by the other. Clocks count nanoseconds.
--
-- Web models the lists of crates/paavo-web/src/api (jobs.rs, boards.rs, schedules.rs), the envelope of
-- crates/paavo-proto/src/page.rs, and the poller of revisions (Web/Poller: crates/paavo-web/src/index.rs).
--
-- Loops are structural, but for `evict_loop` (one unit of fuel more than there are entries; each round
-- deletes one), and `run_stage` and `build_stage` in Daemon/Loops (each round but the last takes a waiting
-- job or a free slot, and other actions come between the steps of a round), and `historical_from`, whose
-- fuel counts the pages that it may read. Results below say that the fuel is enough.
--
-- Ids of jobs are the 128-bit numbers of their ULIDs. What comes from outside is a parameter: the disk,
-- the results of builds and runs, the clock, the texts of messages that format numbers, the path of a
-- stored artifact, and what the receiver of a live stream yields. In the requests a reason of quarantine
-- is taken to be trimmed.
--
-- Texts that the program walks are lists of code points. For the search, the text of an id, Rust's
-- lowercasing and the scores of the matcher are parameters.
--
-- Not modelled: the upload of a tar, the files that a purge wipes, the channels of the broker, the
-- builder, probe sessions, the proxy and the pages of the web viewer, and the command line.
--
-- Prelude has the shared names: tests on native numbers and strings, lists, `Rows` for SQL on one table,
-- `Sort`. Examples tries the theorems on a small laboratory.
--
-- The files below each of these modules hold its further definitions and its proofs, and are named for
-- what they are about; Db/Job/Invariant says what a valid job table is, and Db/Job/Stable which statements
-- a property has to survive to hold in every history.
pub mod Prelude
pub mod Proto
pub mod Db
pub mod Core
pub mod Daemon
pub mod Runner
pub mod Web
pub mod Examples
