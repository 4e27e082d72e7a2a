-- ===== src/Worker/Process.antt =====
-- internal/worker/process.go, from the forward on: `forward`, `parkForPolling`, `processPoll`,
-- `fetchAndComplete`, `complete`, `markCompleted`, `retryOrFail` and `failJob`. What the target
-- answers, the jitter and the result files are parameters. A
-- method returns what it does besides the tables, an `Ending`.
pub mod Keeps
pub mod Retries
use tenta_cron.Prelude.{
  ℕ, zero, suc, ◌+◌, ◌-◌, ◌≤◌, String, str_eq, Bool, true, false, ◌&&◌, ◌||◌, not, Option, none,
  some, if◌then◌else◌, leb, ltb, is_some,
}
use tenta_cron.Store.Model.{
  Error, terminal_state, Detail, failure, retrying, responded, finished, gave_up, not_polled,
  no_answer, job_failed, poll_expired, poll_unreachable, parse_ts, Job,
}
use tenta_cron.Store.Sql.{M, pure, recover, time_now, ◌>>=◌}
use tenta_cron.Store.Create.{get_job}
use tenta_cron.Store.Transition.{mark_awaiting_target, mark_completed, mark_failed, requeue}
use tenta_cron.Store.Recovery.{reschedule_poll}
use tenta_cron.Worker.Backoff.{backoff}

-- An error of an upstream call: `IsTransient`, and what `errors.Is` finds in it.
pub record UpstreamError : Type 0 where
  pub transient : Bool
  pub cancelled : Bool
  pub deadline : Bool
  -- `errBadResourceBody`, `resolver.ErrReference`
  pub bad_body : Bool
  pub bad_reference : Bool
  pub message : String

-- `isContextErr`
abbrev pub is_context_err : UpstreamError → Bool
is_context_err x = x.cancelled || x.deadline

pub record RetryConfig : Type 0 where
  pub base : ℕ
  pub max_backoff : ℕ
  pub jitter : ℕ → ℕ

-- What a method does beside the tables: nothing, `JobFinished` and `Notify`, or the removal of a
-- file.
pub data Ending : Type 0 where
  quiet announced : Ending
  discarded : String → Ending

-- `failJob`: an error of the store is logged.
unfoldable pub fail_job : Job → String → Detail → M Ending
fail_job job code message =
    recover (mark_failed job.id code message) (λ x. pure quiet) (λ _. pure announced)

abbrev pub requeue_after : RetryConfig → Job → UpstreamError → Option ℕ → M Ending
requeue_after cfg job x none = fail_job job "internal" (Detail.text "panic: negative shift amount")
requeue_after cfg job x (some b) = do
  now ← time_now
  recover
      (requeue job.id (now + cfg.jitter b)
        (retrying job.attempts job.max_attempts x.message (cfg.jitter b)))
      (λ x. pure quiet) (λ _. pure quiet)

-- `retryOrFail`
unfoldable pub retry_or_fail : RetryConfig → Job → String → UpstreamError → M Ending
retry_or_fail cfg job code x =
    if not x.transient && not (is_context_err x)
    then fail_job job code (Detail.text x.message)
    else (if leb job.max_attempts job.attempts
        then fail_job job "max_attempts_exceeded" (gave_up job.attempts x.message)
        else requeue_after cfg job x (backoff cfg.base cfg.max_backoff job.attempts))

-- A body with what the code asks of it: `json.Valid`, `len`.
pub record Body : Type 0 where
  pub text : String
  pub is_json : Bool
  pub size : ℕ

pub record Poll : Type 0 where
  pub interval : ℕ
  pub timeout : ℕ
  -- `upstream.ExtractJobID`
  pub extract_job_id : Body → Option String

-- `poll` is there in poll mode.
pub record TargetConfig : Type 0 where
  pub timeout : ℕ
  pub retries_on_timeout : Bool
  pub poll : Option Poll

-- The files of `storage.results_dir`: where a written or a moved file ends up and what a spool
-- holds, or none where the file system fails.
pub record Files : Type 0 where
  -- `writeResultFile`
  pub write : String → String → Body → Option String
  pub read : Body → Option Body
  -- `os.Rename` of the spool
  pub move : String → String → Option String
  -- `upstream.max_response_bytes`
  pub memory_limit : ℕ

abbrev pub inline_result_limit : ℕ
inline_result_limit = 262144

abbrev pub same_path : Option String → String → Bool
same_path none path = false
same_path (some p) path = str_eq p path

-- `discardLateResult`: the job's own stored file stays.
unfoldable pub discard_late_result : String → Option (String × String) → M Ending
discard_late_result id none = pure quiet
discard_late_result id (some (path, content_type)) =
    recover (get_job id) (λ x. pure quiet)
      (λ j. if same_path j.result_path path then pure quiet else pure (discarded path))

abbrev pub dropped : String → Option (String × String) → Error → M Ending
dropped id file terminal_state = discard_late_result id file
dropped id file _ = pure quiet

-- `markCompleted`: a completion that came late is dropped.
unfoldable pub mark_done : Job → ℕ → Option String → Option (String × String) → Detail → M Ending
mark_done job status body file detail =
    recover (mark_completed job.id status body file detail) (dropped job.id file)
      (λ _. pure announced)

-- The bytes are trusted over the declared content type.
abbrev pub content_type_for : Bool → Option String → String
content_type_for true declared = "application/json"
content_type_for false (some t) = t
content_type_for false none = "application/octet-stream"

abbrev pub complete_file : Job → ℕ → String → Detail → Option String → M Ending
complete_file job status content_type detail none =
    fail_job job "internal" (Detail.text "write result file")
complete_file job status content_type detail (some path) =
    mark_done job status none (some (path, content_type)) detail

-- `complete`
unfoldable pub complete : Files → Job → ℕ → Option String → Body → Detail → M Ending
complete files job status declared body detail =
    if body.is_json && leb body.size inline_result_limit
    then mark_done job status (some body.text) none detail
    else complete_file job status (content_type_for body.is_json declared) detail
        (files.write job.id (content_type_for body.is_json declared) body)

-- What a forward or a result download came to.
pub data Reply : Type 0 where
  replied : ℕ → Body → Reply
  refused : UpstreamError → Reply

abbrev pub park_as : Job → Poll → ℕ → Body → Option String → M Ending
park_as job poll status body none =
    fail_job job "target_error" (Detail.text "no job id in the response")
park_as job poll status body (some target_job) = do
  now ← time_now
  recover
      (mark_awaiting_target job.id target_job status body.text (now + poll.interval)
        (now + poll.timeout))
      (λ x. pure quiet) (λ _. pure quiet)

-- `parkForPolling`
unfoldable pub park_for_polling : Job → Poll → ℕ → Body → M Ending
park_for_polling job poll status body = park_as job poll status body (poll.extract_job_id body)

abbrev pub settle_reply : Files → Job → Option Poll → ℕ → Body → M Ending
settle_reply files job (some poll) status body = park_for_polling job poll status body
settle_reply files job none status body = complete files job status none body (responded status)

-- `forward`, on the target's reply.
unfoldable pub forward : RetryConfig → Files → Job → TargetConfig → Reply → M Ending
forward cfg files job target (refused x) =
    if x.deadline && not target.retries_on_timeout
    then fail_job job "target_timeout" (no_answer job.target target.timeout)
    else retry_or_fail cfg job "target_error" x
forward cfg files job target (replied status body) = settle_reply files job target.poll status body

-- What a status call came to.
pub data PollReply : Type 0 where
  polled : Bool → Bool → String → PollReply
  unreachable : UpstreamError → PollReply

-- `job.PollDeadline != nil && time.Now().After(*job.PollDeadline)`
abbrev pub is_past : Option ℕ → ℕ → Bool
is_past none now = false
is_past (some deadline) now = ltb (parse_ts deadline) now

abbrev pub target_job_of : Option String → String
target_job_of none = ""
target_job_of (some id) = id

abbrev pub complete_read : Files → Job → Option String → Detail → Option Body → M Ending
complete_read files job declared detail none =
    fail_job job "internal" (Detail.text "read spooled result")
complete_read files job declared detail (some body) = complete files job 200 declared body detail

abbrev pub complete_moved : Job → String → Detail → Option String → M Ending
complete_moved job content_type detail none =
    fail_job job "internal" (Detail.text "store result file")
complete_moved job content_type detail (some path) =
    mark_done job 200 none (some (path, content_type)) detail

-- `completeSpooled`: a large result is not read, and keeps its declared type.
unfoldable pub complete_spooled : Files → Job → Option String → Body → Detail → M Ending
complete_spooled files job declared spool detail =
    if leb spool.size files.memory_limit
    then complete_read files job declared detail (files.read spool)
    else complete_moved job (content_type_for false declared) detail
        (files.move job.id (content_type_for false declared))

-- A download of a result: the spool and its declared type, or the error, which is permanent where
-- the result is over `storage.max_result_bytes`.
pub data Download : Type 0 where
  spooled : Option String → Body → Download
  undelivered : UpstreamError → Download

-- `fetchAndComplete`
unfoldable pub fetch_and_complete : Files → Job → String → Bool → Download → M Ending
fetch_and_complete files job raw past (spooled declared spool) =
    complete_spooled files job declared spool (finished (target_job_of job.target_job_id) raw)
fetch_and_complete files job raw past (undelivered x) =
    if x.transient && not past
    then pure quiet
    else fail_job job "target_error" (Detail.text x.message)

-- The decision of `processPoll` on the status call; `download` is what a finished job's result
-- download comes to.
unfoldable pub settle_poll : Files → Job → Bool → PollReply → Download → M Ending
settle_poll files job past (unreachable x) download =
    if x.transient
    then (if past
        then fail_job job "target_timeout"
            (poll_unreachable (target_job_of job.target_job_id) x.message)
        else pure quiet)
    else fail_job job "target_error" (Detail.text x.message)
settle_poll files job past (polled failed done raw) download =
    if failed
    then fail_job job "target_job_failed" (job_failed (target_job_of job.target_job_id) raw)
    else (if done
        then fetch_and_complete files job raw past download
        else (if past
            then fail_job job "target_timeout" (poll_expired (target_job_of job.target_job_id))
            else pure quiet))

abbrev pub interval_of : ℕ → Option Poll → ℕ
interval_of fallback none = fallback
interval_of fallback (some poll) = poll.interval

-- The deferred `reschedulePoll`.
unfoldable pub end_tick : ℕ → Option Poll → Job → Ending → M Ending
end_tick fallback poll job ended = do
  now ← time_now
  recover (reschedule_poll job.id (now + interval_of fallback poll)) (λ x. pure ended)
      (λ _. pure ended)

abbrev pub tick : Files → Job → Option Poll → PollReply → Download → M Ending
tick files job none reply download = fail_job job "unknown_target" (not_polled job.target)
tick files job (some poll) reply download = do
  now ← time_now
  settle_poll files job (is_past job.poll_deadline now) reply download

-- `processPoll`; `fallback` is `worker.poll_interval`.
unfoldable pub process_poll : ℕ → Files → Job → Option Poll → PollReply → Download → M Ending
process_poll fallback files job poll reply download = do
  ended ← tick files job poll reply download
  end_tick fallback poll job ended
