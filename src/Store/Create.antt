-- ===== src/Store/Create.antt =====
-- internal/store/jobs.go, accepting a job: `CreateJob`, `createJobOnce`, `insertJob`,
-- `replayIdempotent`, `GetJob` and `GetJobByIdempotency`.
pub mod Outcome
use mathlib.Core.Option
use tenta_cron.Prelude.{
  ℕ, zero, suc, ◌+◌, max, String, ◌==◌, Bool, true, false, ◌&&◌, ◌||◌, not, Option, none, some,
  List, [], ◌∷◌, ◌++◌, if◌then◌else◌, is_some, is_text, str_eq, ltb, leb, find_where, count_where,
}
use tenta_cron.Prelude.Tables.{find_by}
use tenta_cron.Store.Model.{
  State, received, is_terminal, Error, not_found, idempotency_conflict, queue_full, not_settled,
  key_taken, db_error, ts, Detail, Submission, Job, Database,
}
use tenta_cron.Store.Sql.{
  Result, ok, err, M, pure, raise, statement, query, on_error, time_now, begin, rollback, commit,
  recover, ◌>>=◌, ◌>>◌,
}
use tenta_cron.Store.Transition.{append_event}

-- `WHERE client = ? AND idempotency_key = ?`
abbrev pub has_key : String → String → Job → Bool
has_key client key j = str_eq j.client client && is_text j.idempotency_key key

-- `WHERE client = ? AND state NOT IN (?, ?, ?)`
abbrev pub is_queued : String → Job → Bool
is_queued client j = str_eq j.client client && not (is_terminal j.state)

-- SQLite gives a new row the highest rowid plus one.
abbrev pub last_seq : List Job → ℕ
last_seq [] = 0
last_seq (j ∷ js) = max j.seq (last_seq js)

-- The columns that `insertJob` writes; the others are NULL.
abbrev pub new_row : Submission → ℕ → ℕ → Job
new_row s now seq = record {
  seq = seq;
  id = s.id;
  client = s.client;
  idempotency_key = s.idempotency_key;
  target = s.target;
  state = received;
  attempts = 0;
  max_attempts = s.max_attempts;
  next_attempt_at = Option.map ts s.not_before;
  not_before = Option.map ts s.not_before;
  callback_url = s.callback_url;
  priority = s.priority;
  options = s.options;
  payload = s.payload;
  resolved_payload = none;
  target_job_id = none;
  poll_deadline = none;
  target_status = none;
  target_response = none;
  result_path = none;
  result_content_type = none;
  error_code = none;
  error_message = none;
  created_at = ts now;
  updated_at = ts now;
  completed_at = none;
}

abbrev pub key_held : String → Option String → List Job → Bool
key_held client none js = false
key_held client (some key) js = is_some (find_where (has_key client key) js)

-- `id TEXT PRIMARY KEY` and the unique index `jobs_idem_uq`.
abbrev pub insert_row : Submission → ℕ → Database → Result (Unit {0} × Database)
insert_row s now d =
    if is_some (find_by (λ j. j.id) s.id d.jobs)
    then err db_error
    else (if key_held s.client s.idempotency_key d.jobs
        then err key_taken
        else ok (tt, record d { jobs = d.jobs ++ new_row s now (suc (last_seq d.jobs)) ∷ [] }))

-- `insertJob`
unfoldable pub insert_job : Submission → ℕ → M (Unit {0})
insert_job s now = statement (insert_row s now)

abbrev pub or_not_found : Option Job → M Job
or_not_found none = raise not_found
or_not_found (some j) = pure j

-- `GetJob`
unfoldable pub get_job : String → M Job
get_job id = do found ← query (λ d. find_by (λ j. j.id) id d.jobs); or_not_found found

-- `GetJobByIdempotency`; an empty key is stored as NULL and found by nothing.
abbrev pub find_by_key : String → Option String → List Job → Option Job
find_by_key client none js = none
find_by_key client (some key) js = find_where (has_key client key) js

unfoldable pub get_job_by_idempotency : String → Option String → M Job
get_job_by_idempotency client key = do
  found ← query (λ d. find_by_key client key d.jobs)
  or_not_found found

-- What `CreateJob` returns without an error: a job of its own, or the stored one.
pub data Stored : Type 0 where
  created : Submission → ℕ → Stored
  replayed : Job → Stored

-- `replayIdempotent`
unfoldable pub replay_idempotent : Submission → M Stored
unfolding get_job_by_idempotency
replay_idempotent s = do
  existing ← get_job_by_idempotency s.client s.idempotency_key
  if not (str_eq existing.target s.target) || not (str_eq existing.payload s.payload)
      then raise idempotency_conflict
      else pure (replayed existing)

-- `SELECT count(*)` on the transaction's connection, which is rolled back if it fails.
abbrev pub count_rows : Database → (Job → Bool) → M ℕ
count_rows tx p = on_error (rollback tx) (query (λ d. count_where p d.jobs))

-- The replay look-up, made only under a queue_cap and only for a request with a key.
abbrev pub count_key : Bool → String → Option String → Database → M ℕ
count_key false client key tx = pure 0
count_key true client none tx = pure 0
count_key true client (some key) tx = count_rows tx (has_key client key)

abbrev pub count_queued : Bool → String → Database → M ℕ
count_queued false client tx = pure 0
count_queued true client tx = count_rows tx (is_queued client)

abbrev pub is_key_taken : Error → Bool
is_key_taken key_taken = true
is_key_taken _ = false

abbrev pub accepted_detail : Option ℕ → Detail
accepted_detail none = Detail.text "job accepted"
accepted_detail (some _) = Detail.text "job accepted, delayed"

-- The insert, its event and the commit. A key that is taken after all is a replay.
unfoldable pub insert_and_commit : Submission → ℕ → Database → M Stored
insert_and_commit s now tx =
    recover (insert_job s now)
      (λ x. rollback tx >> (if is_key_taken x then replay_idempotent s else raise x))
      (λ _. do
        on_error (rollback tx) (append_event s.id none received (accepted_detail s.not_before) now)
        commit tx
        pure (created s now))

-- `createJobOnce`; a `queue_cap` of 0 is none.
unfoldable pub create_job_once : Submission → ℕ → M Stored
create_job_once s queue_cap = do
  now ← time_now
  tx ← begin
  known ← count_key (ltb 0 queue_cap) s.client s.idempotency_key tx
  if ltb 0 known then rollback tx >> replay_idempotent s else (do
    queued ← count_queued (ltb 0 queue_cap) s.client tx
    if ltb 0 queue_cap && leb queue_cap queued
        then rollback tx >> raise queue_full
        else insert_and_commit s now tx)

abbrev pub is_not_found : Error → Bool
is_not_found not_found = true
is_not_found _ = false

-- The loop of `CreateJob`: the stored job of a replay may vanish before it is read.
unfoldable pub create_retry : ℕ → Submission → ℕ → M Stored
create_retry zero s queue_cap = raise not_settled
create_retry (suc attempts) s queue_cap =
    recover (create_job_once s queue_cap)
      (λ x.
        let rest = create_retry attempts s queue_cap in if is_not_found x then rest else raise x)
      pure

-- `CreateJob`
unfoldable pub create_job : Submission → ℕ → M Stored
unfolding create_retry
create_job s queue_cap = create_retry 3 s queue_cap
