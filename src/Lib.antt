-- ===== src/Lib.antt =====
-- A verification library for the VeriNode backend: the node-status two-phase update, the bond pools,
-- the slashing nonce sequencer, the feature flags and the load shedder, the validator keys and their
-- rotation, the job scheduler, the dead letter queue and the rate limiter.
--
-- The parts, and how they interact:
-- TwoPhase: src/core/state. A status transition writes a tentative row, asks the chain, and then
--   commits or rolls back; an admin resolves rows that are stuck; a worker sweeps the expired ones.
--   The three work on the same tables (src/database/node_status.sql), so their statements are
--   functions of one record `Tables`.
--     Tables      the tables and VALID_TRANSITIONS
--     Rollback    rollback_handler.ts: `execute` and its five statements
--     Controller  two_phase_controller.ts: `transition` (`prepare`, `phase_two`, `finish`),
--                 `get_node_status`, `resolve_tentative`
--     Cleanup     tentative_cleanup_worker.ts: `sweep`
--     Effects, Evolution, History, Outcomes, Cascade, Sweep, Counters, Race: proofs
-- Bond: src/staking/poolStore.ts and bondPool.ts.
--     Defs, Memory     the in-memory store and the service over it
--     Rows             the rows of validator_stakes and their statements, with the ranges and CHECKs of
--                      src/database/migrations/006_bond_pools.sql
--     Postgres         the Postgres store, its optimistic loops against other transactions
--     Keys, Cases, Sums, Amounts, Backing, Service, Solvency, Debits, Attempts, Optimistic: proofs
-- Slashing: src/staking/slashing_sequencer.ts over src/database/nonce_store.ts.
--     Wal         the log, the water mark file and the buffer
--     Sequencer   requests, replies, restarts
--     Window      NonceWindow
--     Order, Recovery, Payload: proofs
-- Flags: src/core/ingress/feature_flags.ts; Shedder: src/core/ingress/capacity_shedder.ts, which
--   overrides flags when the load is high; the route guards on both are those of
--   src/core/ingress/graceful_degradation.ts.
--     Flags.Registry, Flags.Enabled (`isEnabled`, `requireFlag`); Flags.Effective, Flags.Reload: proofs
--     Shedder.Levels, Shedder.State; Shedder.Evaluate, Shedder.Overrides: proofs
-- Keys: src/keys and src/consensus/commitment-broadcaster.ts. A ceremony rotates a validator's key: it
--   reserves the new key in the registry, proposes the rotation to the broadcaster, which collects the
--   votes of two thirds of the validators, and then activates the new key and retires the old one.
--     Identifiers, Registry, Activation    key-registry.ts; Index, Consistent, Rotating, Retiring,
--                                          Calls: proofs, with `assert_consistent` in Calls
--     Sets, Broadcast                      commitment-broadcaster.ts; Quorum, Events: proofs
--     Ceremony, Approval                   rotation-ceremony.ts; Phases, Rotations, Forward: proofs
--     Accepted                             the ceremony at what comes out of the broadcaster
-- Scheduler: src/scheduler over src/database/migrations/011_distributed_jobs.sql.
--     Store      job_store.ts: one function for each statement
--     Worker     scheduler.ts: a worker's polls, the end of a job, the map of workers
--     Metrics    metrics.ts
--     Oldest, Histories, Leases, Retries: proofs
-- Dlq: src/queue/dead_letter_queue.ts, to which the scheduler hands jobs.
--     Table, Metrics, Manager    the repository, the histogram, `process` and `retry`
--     Runs, Retrying: proofs
-- Limiter: src/security/rate_limiter.ts. Buckets is the store in memory and the middleware; Rate,
--   Waiting: proofs.
-- Prelude and Dict hold what all share: tests and lists on native numbers, signed integers, and maps
--   with string keys. The Examples modules hold tests and the theorems at concrete values.
--
-- How the code is modelled: names are the source's in snake case. State is a record that an operation
-- takes and returns; what an operation throws is an error value beside the state that it leaves.
-- Asynchronous code is split where it waits, so that interleavings are sequences of steps. `bigint`
-- amounts are signed integers, nonces and times natural numbers.
--
-- Token counts of the rate limiter are
-- exact rational numbers, in a unit that makes them whole, where the source rounds in floating point.
--
-- Bounds and fuel: the commit loop runs COMMIT_RETRY_ATTEMPTS times and the optimistic loops five
-- times, by recursion on the attempts that are left, and `claim` goes once round the window.
-- `isEnabled` calls itself on dependencies; it runs on fuel, which suffices when it is more than a rank
-- that falls along the dependencies. The attempts of `process` and `retry` recur on the retries that are
-- left, which the caller's limit gives.
--
-- What is a parameter: the database's refusals, the chain's replies, hashing, randomness and clocks
-- (`World` of TwoPhase.Controller.Outside), other transactions on the pools (`others` of Bond.Postgres), the
-- type of the metrics and its `>=` (Shedder), what the configuration answers (Flags), how a pattern matches a path (Limiter), the rows that other
-- transactions have locked (`claim_job`), and the handler of a message, the errors of the database and
-- the rest of the system's writes (`World` of Dlq.Manager). A JavaScript number that is checked before
-- use is an optional natural number (Keys.Identifiers). What is not
-- modelled: log lines, spans, timers, connections, the Redis store of the rate limiter, metrics other than those named, and the parts of the backend that PROJECT.json lists
-- as such. In Bond.Memory a pool's lock makes each call one step, so the lock itself is not a
-- definition. In Slashing.Wal a line of JSON is the list of entries written on it.
pub mod Prelude
pub mod Dict
pub mod TwoPhase
pub mod Bond
pub mod Slashing
pub mod Flags
pub mod Shedder
pub mod Keys
pub mod Scheduler
pub mod Dlq
pub mod Limiter
