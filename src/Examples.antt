-- ===== src/Examples.antt =====
-- Data for the examples: environments, a submission and what a few runs leave.
pub mod Jobs
pub mod Handlers
pub mod Others
pub mod Fetching
pub mod Payloads
pub mod Policies
use tenta_cron.Prelude.{
  ℕ, ◌+◌, ◌*◌, ◌^◌, ◌≤◌, ◌<◌, ◌≡◌, ◌↔◌, refl, true, false, none, some, ◌==◌, String, find_where,
  List, [], ◌∷◌, arith, All, pos, is_some, count_where,
}
use tenta_cron.Prelude.Tables.{find_by, update_by, UniqueBy}
use tenta_cron.Store.Model.{resolving, cancelled, Detail, Submission, Job, cache_default}
use tenta_cron.Store.Sql.{ok, Env, World, recover, ◌>>=◌}
use tenta_cron.Store.Sql.Hoare.{Post}
use tenta_cron.Store.Transition.{
  transition_guarded, transit, change, current_state, append_event, enqueue_callback, cancel_guard,
  cancel_row, mark_cancelled,
}
use tenta_cron.Store.Transition.Outcome.{Committed, after, transition_guarded-Post}
use tenta_cron.Store.Transition.Total.{transition_guarded_exact}
use tenta_cron.Store.Create.{create_job, create_job_once, new_row, insert_and_commit, insert_job}
use tenta_cron.Store.Create.Outcome.{Accepted, Same, create_job-Post}
use tenta_cron.Store.Claim.{
  ClaimPolicy, claim_row, record_claim, claim_received, claim_poll_tick, claim_next, candidates,
  is_eligible, is_held_by,
}
use tenta_cron.Store.Claim.Outcome.{Claimed, Ticked, claim_received-Post, claim_poll_tick-Post}
use tenta_cron.Store.Claim.Ceiling.{claim_received-le_ceiling, candidates-eligible}
use tenta_cron.Store.Recovery.{recover_in_flight, rescue_stuck, reset_poll_schedules}
use tenta_cron.Store.Retention.{delete_jobs}
use tenta_cron.Store.Invariant.{IsValid}
use tenta_cron.Worker.Backoff.{backoff, backoff_bounds, backoff-min}
use tenta_cron.Worker.Process.{
  RetryConfig, Files, TargetConfig, replied, Body, Poll, polled, spooled, forward, process_poll,
}
use tenta_cron.Callback.Deliverer.{
  CallbackConfig, Answer, classify, delivered, retry, is_final, deliver_due,
}
use tenta_cron.Callback.Deliverer.Verdicts.{classify-delivered, classify-retry}
use tenta_cron.Runs.{Call, accept, claim, complete, cancel, delete, perform, run, empty}
use tenta_cron.Runs.Validity.{reachable-IsValid}
use tenta_cron.Runs.Handlers.{
  claim_next-IsValid, recover_in_flight-IsValid, rescue_stuck-IsValid, reset_poll_schedules-IsValid,
  delete_jobs-IsValid, forward-IsValid, process_poll-IsValid, deliver_due-IsValid,
}
use tenta_cron.Prelude.{length}
use tenta_cron.Store.Model.{is_held}
use tenta_cron.Store.Recovery.{held_ids}
use tenta_cron.Runs.Restart.{recover_in_flight-drains}
use tenta_cron.Prelude.{◌≢◌}
use tenta_cron.Store.Model.{Schedule}
use tenta_cron.Store.Cache.{get_series, put_series}
use tenta_cron.Store.Cache.RoundTrip.{get_series-put_series}
use tenta_cron.Store.Schedules.{advance_schedule}
use tenta_cron.Store.Schedules.Advance.{advance_schedule-once}
use tenta_cron.Worker.Scheduler.{SchedulerConfig, run_due_schedules}
use tenta_cron.Worker.Scheduler.Keeps.{run_due_schedules-IsValid}
use tenta_cron.Prelude.{◌||◌}
use tenta_cron.Store.Listing.{ListFilter, passes, page}
use tenta_cron.Store.Listing.Filter.{page-passes}
use tenta_cron.Notify.Hub.{Hub, new_hub, wait, notify}
use tenta_cron.Notify.Hub.Wakes.{is_closed, is_waiting, notify-wakes}
use tenta_cron.Runs.Finality.{terminal-stays}

-- No statement fails, and the clock stands still.
abbrev pub calm_env : Env
calm_env = record { fails = λ n. false; clock = λ n. 5000000000 }

-- The statement at this access fails.
abbrev pub faulty_env : ℕ → Env
faulty_env k = record { fails = λ n. n == k; clock = λ n. 5000000000 }

abbrev pub order : Submission
order = record {
  id = "job-1";
  client = "alice";
  idempotency_key = some "key-1";
  target = "sim";
  max_attempts = 3;
  not_before = none;
  callback_url = some "https://alice.example/done";
  priority = pos 0;
  options = cache_default;
  payload = "{}";
}

abbrev pub policy : ClaimPolicy
policy = record { poll_lease = none; max_concurrent = some (λ client. 1) }

abbrev pub row : Job
row = new_row order 5000000000 1

abbrev pub running : Job
running = transit resolving 5000000000 claim_row row

-- One job accepted.
abbrev pub accepted_run : List (Call × Env)
accepted_run = (accept order 10, calm_env) ∷ []

-- The job accepted, then cancelled.
abbrev pub cancelled_run : List (Call × Env)
cancelled_run =
    (accept order 10, calm_env)
    ∷ (cancel "job-1" (Detail.text "cancelled by client"), calm_env)
    ∷ []

-- The job accepted, then claimed.
abbrev pub claimed_run : List (Call × Env)
claimed_run = (accept order 10, calm_env) ∷ (claim row 5000000000 policy, calm_env) ∷ []

abbrev pub queued : World
queued = run accepted_run empty

abbrev pub ended : World
ended = run cancelled_run empty

abbrev pub held : World
held = run claimed_run empty

pub queued-IsValid : IsValid queued.db
queued-IsValid = reachable-IsValid accepted_run

pub held-IsValid : IsValid held.db
held-IsValid = reachable-IsValid claimed_run

abbrev pub ended_row : Job
ended_row = transit cancelled 5000000000 (cancel_row 5000000000) row

pub queued_row : find_by (λ j. j.id) "job-1" queued.db.jobs ≡ some row
unfolding run perform create_job_once ◌>>=◌ count_where insert_and_commit recover insert_job
    append_event find_where find_by
queued_row = refl

pub queued_alone : UniqueBy (λ j. j.id) queued.db.jobs
queued_alone = queued-IsValid.unique

pub ended_is_over : find_by (λ j. j.id) "job-1" ended.db.jobs ≡ some ended_row
unfolding run perform create_job_once ◌>>=◌ count_where insert_and_commit recover insert_job
    append_event find_where find_by mark_cancelled transition_guarded change current_state
    enqueue_callback update_by
ended_is_over = refl

abbrev pub callbacks : CallbackConfig
callbacks = record {
  max_attempts = 5;
  backoff_base = 1000000000;
  backoff_max = 60000000000;
  jitter = λ b. b;
}
