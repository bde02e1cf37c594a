-- ===== src/Lib.antt =====
-- A model of the crate crates/assets: a store of shared immutable assets with generational
-- identities, one production attempt at a time for each asset, waiters, replacement, removal and a
-- cache budget; and of the file loader that crates/assets/examples/file_loader/mod.rs builds on it.
--
-- Parts, and the files that model them:
--   Identity         crates/assets/src/identity.rs: AssetId, tokens, handles, weak handles, order
--   State, Budget    crates/assets/src/state.rs and budget.rs: snapshots, failures, reports
--   Error            crates/assets/src/error.rs, and the result of a fallible call; the messages are in
--                    Error/Display
--   Production       crates/assets/src/production.rs: the capabilities and the outcomes
--   Cell             crates/assets/src/runtime.rs, lines 20 to 209: the cell of an attempt, with the
--                    registry of its waiters; Cell/Interleave runs a poll against a completion
--   World            runtime.rs, lines 211 to 303: the state of a store, with the heap of tokens and
--                    cells that its handles, permits and waiters share
--   Store            runtime.rs, from line 262: the shared steps (Store), create to upgrade
--                    (Store/Begin), commit, fail and cancel (Store/Finish), remove (Store/Remove),
--                    collect and cache_stats (Store/Collect), the methods and drops of permits and
--                    waiters and the drop of the store (Store/Permit), and the calls of
--                    crates/assets/src/store.rs in any order (Store/Calls)
--   Lifecycle        the abstract machine of one slot of a store, the view of a state as places, and
--                    every call as steps of it (Lifecycle/Refines)
--   Loader           crates/assets/examples/file_loader/mod.rs: keys of sources (Loader/Key), failures
--                    (Failure), counters (Metrics), the loader and its directory of identities
--                    (Directory), producers and their ends (Producer), the read of a source
--                    (Reading), the cap on temporary bytes (Budget), productions (Production),
--                    requests and the calls of clients in any order (Requests), and the blocking
--                    wait (Wait). It works on the World of the store by the functions of Store
--   Loader/Program   crates/assets/examples/07_file_loader.rs: a program that loads one file by a
--                    worker thread, under a schedule of the two threads
--   Exec, Prelude    methods that mutate and may fail; lists, words, tests
--   Programs         crates/assets/examples/01_shared_production.rs to 06_budget_collection.rs: the
--                    programs as clients of a store, which Programs/Runs runs to their ends
--   Examples, and the Examples of Cell, Store, Lifecycle, Loader, Loader/Requests and
--                    Loader/Program: concrete stores and loaders
--
-- A method of StoreInner is a function from its arguments and the World before to its Result and the
-- World after. It holds the lock of the store while it mutates, so it is one atomic step; what it
-- does after the lock is released (the completion of a cell, the drop of a permit) follows in the
-- same function. The sections of AttemptCell that may interleave with others are functions of their
-- own. An Arc is an address: tokens and cells are numbered from World.next. Wakers that are woken
-- are recorded in World.woken.
--
-- Integers are unbounded numbers, and the u64 and u32 counters are bounded by the checked additions
-- of the source, whose failures are modelled; the counters of the loader wrap around. The loops of
-- the store are over lists that it holds. The loop of read_exact_bounded runs on fuel, one round
-- more than the capacity, which is enough because each round but the last fills a byte. The loop of
-- wait_for runs over the rounds of an environment: for each the time that has passed and what the
-- other threads do to the store.
--
-- Parameters: the counts of Arc owners, Waker::will_wake, the identity of a store, which
-- StoreInner::new draws from a counter of the process, usize::MAX, the file system (open, the
-- length in the metadata, read), Path::is_absolute and the current directory. Path::components and
-- PathBuf::push are modelled on components, as far as FileKey::new uses them, with the removal of
-- `.` and `..` after a verbatim prefix. A HashMap is an association list. The hasher is external:
-- what an identity feeds it is a list of numbers. So is the formatter: a message is the list of
-- what is written to it. Not modelled: Debug, the hash of a FileKey, the output file of
-- 07_file_loader.rs, the benchmarks and the tests.
pub mod Programs
pub mod Prelude
pub mod Error
pub mod Exec
pub mod Identity
pub mod Budget
pub mod State
pub mod Production
pub mod Cell
pub mod World
pub mod Store
pub mod Lifecycle
pub mod Loader
pub mod Examples
