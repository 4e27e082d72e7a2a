-- ===== src/Store/Transition.antt =====
-- internal/store/jobs.go, the transitions: `transitionGuarded` and the methods over it; events.go
-- `appendEventTx`; deliveries.go `enqueueCallbackTx`. A `build` callback that sets columns is a
-- function on the row. A database call on the path may fail at any of them.

pub mod Outcome
pub mod Total
use tenta_cron.Prelude.{
  ℕ, ◌+◌, ◌*◌, String, ◌==◌, Bool, true, false, ◌&&◌, ◌||◌, not, Option, none, some, List, [], ◌∷◌,
  ◌++◌, if◌then◌else◌, is_some,
}
use tenta_cron.Prelude.Tables.{find_by, update_by}
use tenta_cron.Store.Model.{
  State, received, resolving, forwarding, awaiting_target, completed, failed, cancelled,
  is_terminal, same_state, is_held, Error, not_found, terminal_state, wrong_state, not_cancellable,
  db_error, ts, Detail, failure, accepted, Job, Event, Delivery, Database,
}
use tenta_cron.Store.Sql.{
  Result, ok, err, M, pure, statement, query, execute, on_error, time_now, begin, rollback, commit,
  fail_if, fail_with, when, ◌>>=◌, ◌>>◌,
}

-- `currentState`
abbrev state_of : Option Job → Result State
state_of none = err not_found
state_of (some j) = ok j.state

abbrev with_db : {A : Type 0} → Database → Result A → Result (A × Database)
with_db d (ok a) = ok (a, d)
with_db d (err x) = err x

unfoldable pub current_state : String → M State
current_state id = statement (λ d. with_db d (state_of (find_by (λ j. j.id) id d.jobs)))

-- `appendEventTx`
unfoldable pub append_event : String → Option State → State → Detail → ℕ → M (Unit {0})
append_event id from to detail now = execute (λ d. record d {
  events =
      d.events
      ++ record {
        job_id = id;
        from_state = from;
        to_state = to;
        detail = detail;
        created_at = ts now;
      }
        ∷ [];
})

-- The row that `enqueueCallbackTx` inserts.
abbrev pub new_delivery : String → String → State → ℕ → Delivery
new_delivery id url to now = record {
  job_id = id;
  url = url;
  event = to;
  attempts = 0;
  next_attempt_at = some (ts now);
  delivered_at = none;
  last_status = none;
  last_error = none;
}

-- `job_id TEXT PRIMARY KEY`: a second delivery of one job is refused.
abbrev insert_delivery : Delivery → Database → Result (Unit {0} × Database)
insert_delivery v d =
    if is_some (find_by (λ v. v.job_id) v.job_id d.deliveries)
    then err db_error
    else ok (tt, record d { deliveries = d.deliveries ++ v ∷ [] })

abbrev url_of : Option Job → Result (Option String)
url_of none = err db_error
url_of (some j) = ok j.callback_url

abbrev enqueue : String → State → ℕ → Option String → M (Unit {0})
enqueue id to now none = pure tt
enqueue id to now (some url) = statement (insert_delivery (new_delivery id url to now))

-- `enqueueCallbackTx`
unfoldable pub enqueue_callback : String → State → ℕ → M (Unit {0})
enqueue_callback id to now = do
  url ← statement (λ d. with_db d (url_of (find_by (λ j. j.id) id d.jobs)))
  enqueue id to now url

-- The `UPDATE` that `buildUpdate` assembles.
abbrev pub transit : State → ℕ → (Job → Job) → Job → Job
transit to now build j = build (record j { state = to; updated_at = ts now })

-- What a transition does inside its transaction.
unfoldable pub change :
    String → (State → Option Error) → State → Detail → (Job → Job) → ℕ → Database → M (Unit {0})
change id guard to detail build now tx = do
  current ← current_state id
  fail_if (is_terminal current) terminal_state
  fail_with (guard current)
  execute (λ d. record d { jobs = update_by (λ j. j.id) id (transit to now build) d.jobs })
  append_event id (some current) to detail now
  when (is_terminal to) (enqueue_callback id to now)
  commit tx

-- `transitionGuarded`
unfoldable pub transition_guarded :
    String → (State → Option Error) → State → Detail → (Job → Job) → M (Unit {0})
transition_guarded id guard to detail build = do
  now ← time_now
  tx ← begin
  on_error (rollback tx) (change id guard to detail build now tx)

-- The guard of `transition`: `none` is `anyState`.
abbrev pub from_guard : Option State → State → Option Error
from_guard none current = none
from_guard (some from) current = if same_state current from then none else some wrong_state

unfoldable pub transition : String → Option State → State → Detail → (Job → Job) → M (Unit {0})
transition id from to detail build = transition_guarded id (from_guard from) to detail build

-- `SetResolved`
unfoldable pub set_resolved : String → String → Detail → M (Unit {0})
unfolding transition
set_resolved id payload detail =
    transition id (some resolving) forwarding detail
      (λ j. record j { resolved_payload = some payload })

abbrev pub await_row : String → ℕ → String → ℕ → ℕ → Job → Job
await_row target_job status body first_poll deadline j = record j {
  target_job_id = some target_job;
  target_status = some status;
  target_response = some body;
  next_attempt_at = some (ts first_poll);
  poll_deadline = some (ts deadline);
}

-- `MarkAwaitingTarget`
unfoldable pub mark_awaiting_target : String → String → ℕ → String → ℕ → ℕ → M (Unit {0})
unfolding transition
mark_awaiting_target id target_job status body first_poll deadline =
    transition id (some forwarding) awaiting_target (accepted status target_job)
      (await_row target_job status body first_poll deadline)

-- A column that is set only where there is a value.
abbrev pub or_keep : {A : Type 0} → Option A → Option A → Option A
or_keep none old = old
or_keep (some a) old = some a

abbrev pub path_of : Option (String × String) → Option String
path_of none = none
path_of (some (path, content_type)) = some path

abbrev pub content_type_of : Option (String × String) → Option String
content_type_of none = none
content_type_of (some (path, content_type)) = some content_type

-- The columns that `MarkCompleted` sets.
abbrev pub complete_row : ℕ → Option String → Option (String × String) → ℕ → Job → Job
complete_row status body file now j = record j {
  target_status = some status;
  target_response = or_keep body j.target_response;
  result_path = or_keep (path_of file) j.result_path;
  result_content_type = or_keep (content_type_of file) j.result_content_type;
  next_attempt_at = none;
  completed_at = some (ts now);
}

-- `MarkCompleted`; the file is its path and content type.
unfoldable pub mark_completed :
    String → ℕ → Option String → Option (String × String) → Detail → M (Unit {0})
unfolding transition
mark_completed id status body file detail = do
  now ← time_now
  transition id none completed detail (complete_row status body file now)

abbrev pub fail_row : String → Detail → ℕ → Job → Job
fail_row code message now j = record j {
  error_code = some code;
  error_message = some message;
  next_attempt_at = none;
  completed_at = some (ts now);
}

-- `MarkFailed`
unfoldable pub mark_failed : String → String → Detail → M (Unit {0})
unfolding transition
mark_failed id code message = do
  now ← time_now
  transition id none failed (failure code message) (fail_row code message now)

-- A job that a worker holds is not cancelled.
abbrev pub cancel_guard : State → Option Error
cancel_guard current = if is_held current then some not_cancellable else none

abbrev pub cancel_row : ℕ → Job → Job
cancel_row now j = record j { next_attempt_at = none; completed_at = some (ts now) }

-- `MarkCancelled`
unfoldable pub mark_cancelled : String → Detail → M (Unit {0})
mark_cancelled id detail = do
  now ← time_now
  transition_guarded id cancel_guard cancelled detail (cancel_row now)

abbrev pub requeue_row : Option ℕ → Job → Job
requeue_row next j = record j { next_attempt_at = next }

-- `Requeue`
unfoldable pub requeue : String → ℕ → Detail → M (Unit {0})
unfolding transition
requeue id next detail = transition id none received detail (requeue_row (some (ts next)))
