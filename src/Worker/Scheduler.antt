-- ===== src/Worker/Scheduler.antt =====
-- internal/worker/scheduler.go: `runDueSchedules` and `materialize`. The cron library, the random
-- ids and the text of a due time are parameters.
pub mod Keeps
pub mod Once
use mathlib.Core.Option
use tenta_cron.Prelude.{
  ℕ, ◌+◌, String, Bool, true, false, ◌&&◌, Option, none, some, List, [], ◌∷◌, if◌then◌else◌, leb,
}
use tenta_cron.Store.Model.{
  parse_ts, CacheMode, cache_default, cache_use, cache_bypass, cache_refresh, Submission, Job,
  Schedule,
}
use tenta_cron.Store.Sql.{M, pure, recover, time_now, ◌>>=◌}
use tenta_cron.Store.Create.{Stored, created, replayed, create_job}
use tenta_cron.Store.Schedules.{due_schedules, advance_schedule}

pub record SchedulerConfig : Type 0 where
  -- `schedule.Parse`, and `Next` of what it returns
  pub parse : String → String → Option (ℕ → ℕ)
  -- `store.NewID`, or none where the random source fails
  pub new_id : ℕ → Option String
  -- `store.RunKey`
  pub run_key : String → ℕ → String
  pub max_attempts_for : String → ℕ

-- A recurring run exists to pick up fresh inputs.
abbrev pub run_options : CacheMode → CacheMode
run_options cache_default = cache_refresh
run_options cache_use = cache_use
run_options cache_bypass = cache_bypass
run_options cache_refresh = cache_refresh

abbrev pub run_of : SchedulerConfig → Schedule → ℕ → String → Submission
run_of cfg s due id = record {
  id = id;
  client = s.client;
  idempotency_key = some (cfg.run_key s.id due);
  target = s.target;
  max_attempts = cfg.max_attempts_for s.target;
  not_before = none;
  callback_url = none;
  priority = s.priority;
  options = run_options s.options;
  payload = s.payload;
}

-- The next run: after now, and after the due time.
abbrev pub next_run : (ℕ → ℕ) → ℕ → ℕ → ℕ
next_run next due now = if leb (next now) due then next due else next now

abbrev pub is_created : Stored → Bool
is_created (created s now) = true
is_created (replayed j) = false

abbrev pub stored_id : Stored → String
stored_id (created s now) = s.id
stored_id (replayed j) = j.id

-- What follows the parse and the id.
unfoldable pub materialize_run : SchedulerConfig → Schedule → (ℕ → ℕ) → ℕ → ℕ → String → M Bool
materialize_run cfg s next due now id =
    recover (create_job (run_of cfg s due id) 0) (λ x. pure false)
      (λ stored.
        recover (advance_schedule s.id due (stored_id stored) (next_run next due now))
          (λ x. pure false) (λ advanced. pure (is_created stored && advanced)))

abbrev pub materialize_as :
    SchedulerConfig → Schedule → ℕ → Option (ℕ → ℕ) → Option ℕ → Option String → M Bool
materialize_as cfg s now (some next) (some due) (some id) =
    materialize_run cfg s next (parse_ts due) now id
materialize_as cfg s now _ _ _ = pure false

-- `materialize`: whether it counted a run. A due schedule has its time.
unfoldable pub materialize : SchedulerConfig → Schedule → ℕ → ℕ → M Bool
unfolding materialize_run
materialize cfg s now n =
    materialize_as cfg s now (cfg.parse s.cron s.timezone) s.next_run_at (cfg.new_id n)

-- The loop of `runDueSchedules`; the n-th id is drawn for the n-th schedule.
unfoldable pub materialize_each : SchedulerConfig → ℕ → ℕ → List Schedule → M (Unit {0})
unfolding materialize
materialize_each cfg now n [] = pure tt
materialize_each cfg now n (s ∷ ss) = do
  counted ← materialize cfg s now n
  materialize_each cfg now (n + 1) ss

abbrev pub due_batch : ℕ
due_batch = 100

-- `runDueSchedules`, at the time that its clock shows.
unfoldable pub run_due_schedules : SchedulerConfig → M (Unit {0})
unfolding materialize_each
run_due_schedules cfg = do
  now ← time_now
  recover (due_schedules now due_batch) (λ x. pure tt) (materialize_each cfg now 0)
