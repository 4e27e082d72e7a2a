-- ===== src/Lib.antt =====
-- TentaCron: a store of jobs in one SQLite file, workers that claim a job, forward it to a target
-- and poll for its result, and a deliverer that calls back when a job has ended. The model follows
-- internal/store, internal/resolver, internal/plan, internal/cors, most of internal/worker/process.go,
-- internal/worker/scheduler.go, internal/worker/sweep.go, internal/worker/pool.go and internal/callback,
-- with parts of internal/api and internal/config.
--
-- The parts:
--   Prelude        Boolean tests, lists, integers, and tables by a text key.
--   Store/Model    rows, states and errors (internal/store/jobs.go, events.go, deliveries.go). An
--                  empty text that stands for NULL is `none`; an instant is its nanoseconds, and
--                  `ts` its stored milliseconds.
--   Store/Sql      a method of the store: it reads an environment and turns a world, the tables
--                  with a count of accesses, into a result and a world. The environment says which
--                  access fails and what the clock shows at it, so faults and clocks are arbitrary.
--                  A transaction keeps the tables to come back to: `Rollback` and a failed commit
--                  restore them. Transactions are serialised, as _txlock=immediate makes them.
--   Store/Sql/Hoare, Store/Sql/Holds   rules for postconditions and for properties that methods keep.
--   Store/Transition   transitionGuarded, transition and the Set, Mark and Requeue methods.
--   Store/Create       CreateJob, createJobOnce, insertJob, replayIdempotent, GetJob.
--   Store/Claim        ClaimNext, claimCandidates, claimOne, claimReceived, claimPollTick.
--   Store/Recovery     RecoverInFlight, RescueStuck, ReschedulePoll, ResetPollSchedules.
--   Store/Retention    TerminalBefore, DeleteJobs.
--   Store/Deliveries   DueDeliveries, RecordAttempt, GetDelivery.
--   Store/Cache        GetSeries, PutSeries, PurgeExpiredSeries.
--   Store/Schedules    CreateSchedule, GetSchedule, DeleteSchedule, DueSchedules, AdvanceSchedule.
--   Store/Listing      ListJobs, CountByState.
--   Store/Invariant    what holds of the tables between two transactions, and its proofs.
--   Worker/Backoff     the backoff of retryOrFail and of the deliverer before its jitter, on a wrapping
--                  int64. The jitter makes a delay of 0.8 to 1.2 times the backoff of it.
--   Worker/Process     forward, processPoll, fetchAndComplete, complete, markCompleted, retryOrFail.
--   Worker/Attempt process, processNew, handThrough, failResolution, forwardResolved and fetchOne.
--   Worker/Fetch   fetchAll with its feeder, fetchers and collector as tasks and moves, of which a list
--                  is one interleaving; uniqueByHash, collectFetches, pickResolveError.
--   Worker/Pool    the start of Run, drain, claimPolicy, pollInterval and pollLease.
--   Worker/Scheduler   runDueSchedules, materialize.
--   Worker/Sweep       sweep: purgeExpiredSeries, rescueStuckJobs, pruneRetention.
--   Callback/Deliverer classify, attempt, refuse, deliverDue.
--   Notify/Hub     Wait, Notify, Forget, Pending (internal/notify/hub.go).
--   Resolver/Json  decoded JSON; an object lists its keys in sorted order (internal/resolver).
--   Resolver/Path  ParsePath and Eval of internal/resolver/mapping.go.
--   Resolver/Chain Chain, bind and level of internal/resolver/chain.go.
--   Resolver/Find  Find, walk and Substitute of internal/resolver/resolver.go; a closure that
--                  overwrites a slot is the slot's place.
--   Resolver/Fill  Fill of internal/resolver/chain.go, and what Rehash digests.
--   Plan           Inspect of internal/plan/plan.go, on a decoded payload.
--   Access         authenticate and mayRead (internal/api/auth.go), Check (internal/callback/allow.go).
--   Api            handleCancel and jobForCaller (internal/api/handlers.go).
--   Config         Validate (internal/config/validate.go) for the worker section, the API keys and
--                  the deadlines of targets.
--   Cors/Bytes     texts as lists of bytes, and what of package strings the policy uses.
--   Cors/Policy    Validate, newPolicy, originAllowed and the headers of ServeHTTP and preflight
--                  (internal/cors/cors.go).
--   Runs           sequences of transactions with arguments of any kind, as the concurrent parts of
--                  an instance issue them, and the handlers that make several transactions.
--   Examples       concrete runs.
--
-- Parts interact through the tables: a worker claims a row by a compare-and-set, acts on a copy of
-- it that may be stale, and reports through a transition that looks at the row again. The hub wakes
-- the requests that wait for a job.
--
-- Bounds: CreateJob tries three times and ClaimNext makes eight rounds, as the code does. Deleting
-- recurses on the number of ids, which is enough since every round drops at least one of them.
-- Following references recurses on one more than the number of resolvents, since none stands twice on
-- a trail. The retention recurses on one more than the number of jobs, since each round deletes one.
--
-- Parameters: SQLite's LIKE, answers of targets and receivers, the result files, the jitter, the
-- random spread, random ids, the cron library, the text of a due time, the allow-list's verdict, and
-- each lookup of the configuration.
--
-- Not modelled: the response map, the encoding of JSON and hashes, the calls of targets, the handlers
-- of the HTTP API but for cancellation, the rest of the configuration, metrics and logs; a cancelled context, whose effect on a statement is
-- that it fails; the texts of errors that no code compares.

pub mod Prelude
pub mod Store
pub mod Worker
pub mod Callback
pub mod Notify
pub mod Resolver
pub mod Cors
pub mod Access
pub mod Api
pub mod Config
pub mod Plan
pub mod Runs
pub mod Examples
