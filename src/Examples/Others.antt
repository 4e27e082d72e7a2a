-- ===== src/Examples/Others.antt =====
-- Backoffs, verdicts, schedules, the cache, pages and the hub at concrete inputs.
use tenta_cron.Prelude.{
  ℕ, ◌+◌, ◌≤◌, ◌<◌, ◌≡◌, refl, true, false, none, some, [], ◌∷◌, arith, pos, is_some,
}
use tenta_cron.Prelude.Tables.{find_by}
use tenta_cron.Store.Model.{cache_default}
use tenta_cron.Store.Sql.{ok, Env, World, ◌>>=◌}
use tenta_cron.Prelude.{subst, some_injective}
use tenta_cron.Store.Model.{ts, parse_ts}
use tenta_cron.Store.Sql.{recover}
use tenta_cron.Store.Transition.{append_event}
use tenta_cron.Prelude.{count_where, find_where}
use tenta_cron.Store.Create.{
  create_job, create_retry, create_job_once, insert_and_commit, insert_job,
}
use tenta_cron.Store.Schedules.Advance.{AtTime}
use tenta_cron.Worker.Scheduler.{materialize, materialize_run}
use tenta_cron.Worker.Scheduler.Once.{IsForward, HasRun, materialize-once}
use tenta_cron.Worker.Backoff.{backoff}
use tenta_cron.Callback.Deliverer.{Answer, classify, retry, is_final}
use tenta_cron.Callback.Deliverer.Verdicts.{classify-retry}
use tenta_cron.Prelude.{◌≢◌}
use tenta_cron.Store.Model.{Schedule}
use tenta_cron.Store.Cache.{get_series, put_series}
use tenta_cron.Store.Cache.RoundTrip.{get_series-put_series}
use tenta_cron.Store.Schedules.{advance_schedule}
use tenta_cron.Store.Schedules.Advance.{advance_schedule-once}
use tenta_cron.Worker.Scheduler.{SchedulerConfig}
use tenta_cron.Prelude.{◌||◌}
use tenta_cron.Notify.Hub.{Hub, new_hub, wait, notify}
use tenta_cron.Notify.Hub.Wakes.{is_closed, is_waiting, notify-wakes}
use tenta_cron.Examples.{calm_env, queued, callbacks}

abbrev accepted_answer : Answer
accepted_answer = record { status = 200; error = none }

abbrev unavailable : Answer
unavailable = record { status = 503; error = some "receiver answered 503" }

retried : classify callbacks 0 1 unavailable ≡ retry 1000000000
unfolding classify backoff
retried = refl

classify-retry_example :
    (is_some unavailable.error ≡ true)
    × (is_final unavailable.status ≡ false)
    × (1 < callbacks.max_attempts)
    × ((b : ℕ) × (1000000000 ≡ 0 + callbacks.jitter b) × (0 < b) × (b ≤ callbacks.backoff_max))
classify-retry_example = classify-retry callbacks 0 0 1000000000 unavailable (omega arith) retried

abbrev later_env : Env
later_env = record { fails = λ n. false; clock = λ n. 9000000000 }

get_series-put_series_example :
    (get_series "h1" later_env (put_series "h1" "pv" "[1,2]" 60000000000 calm_env queued).1).0
    ≡ ok (some "[1,2]")
get_series-put_series_example =
    get_series-put_series "h1" "pv" "[1,2]" 60000000000 calm_env later_env queued (λ n. refl)
      (λ n. refl) (λ n. omega arith)

abbrev nightly : Schedule
nightly = record {
  id = "s1";
  client = "alice";
  target = "sim";
  payload = "{}";
  cron = "0 3 * * *";
  timezone = "UTC";
  priority = pos 0;
  options = cache_default;
  idempotency_key = none;
  enabled = true;
  next_run_at = some 3000;
  last_run_at = none;
  last_job_id = none;
  created_at = 1000;
  updated_at = 1000;
}

abbrev scheduled : World
scheduled = record {
  db = record {
    jobs = [];
    events = [];
    deliveries = [];
    claims = [];
    series = [];
    schedules = nightly ∷ [];
  };
  step = 0;
}

advances_first :
    (advance_schedule "s1" 3000000000 "job-1" 7000000000 calm_env scheduled).0 ≡ ok true
unfolding advance_schedule find_by ◌>>=◌
advances_first = refl

advance_schedule-once_example :
    (advance_schedule "s1" 3000000000 "job-2" 8000000000 later_env
      (advance_schedule "s1" 3000000000 "job-1" 7000000000 calm_env scheduled).1).0
    ≢ ok true
advance_schedule-once_example =
    advance_schedule-once "s1" 3000000000 "job-1" 7000000000 "job-2" 8000000000 calm_env later_env
      scheduled (omega arith) advances_first

abbrev scheduler : SchedulerConfig
scheduler = record {
  parse = λ cron timezone. some (λ t. parse_ts (ts t + 4000));
  new_id = λ n. some "run-1";
  run_key = λ id t. "schedule:s1:3";
  max_attempts_for = λ target. 3;
}

scheduler-IsForward :
    (next : ℕ → ℕ) → scheduler.parse "0 3 * * *" "UTC" ≡ some next → IsForward next
scheduler-IsForward next h =
    subst IsForward (some_injective h) λ t. (ts t + 4000, refl, omega arith)

runs_first : (materialize scheduler nightly 5000000000 0 calm_env scheduled).0 ≡ ok true
unfolding materialize materialize_run create_job create_retry create_job_once insert_and_commit
    insert_job append_event count_where find_where recover advance_schedule find_by ◌>>=◌
runs_first = refl

materialize-once_example :
    let w1 = (materialize scheduler nightly 5000000000 0 calm_env scheduled).1 in
    ((at : ℕ) × (3000 < at) × AtTime "s1" at w1.db)
    × HasRun scheduler nightly 3000000000 w1.db
    × ((materialize scheduler nightly 6000000000 0 later_env w1).0 ≢ ok true)
materialize-once_example =
    materialize-once scheduler nightly 3000 5000000000 0 6000000000 0 calm_env later_env scheduled
      scheduler-IsForward refl runs_first

abbrev waiting_hub : Hub
waiting_hub = (wait "job-2" (wait "job-1" new_hub).1).1

notify-wakes_example :
    (is_closed 0 (notify "job-1" waiting_hub)
      ≡ (is_closed 0 waiting_hub || is_waiting "job-1" 0 waiting_hub))
    × (is_waiting "job-1" 0 (notify "job-1" waiting_hub) ≡ false)
notify-wakes_example = notify-wakes "job-1" 0 waiting_hub
