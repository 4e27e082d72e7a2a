-- ===== src/Worker/Process/Keeps.antt =====
-- What a worker does with one job keeps the tables valid (internal/worker/process.go).
use tenta_cron.Prelude.{ℕ, String, Bool, Option, none, some}
use tenta_cron.Store.Model.{Error, terminal_state, Detail, Job}
use tenta_cron.Store.Invariant.Keeps.{Keeps, keeps_rules}
use tenta_cron.Store.Sql.Holds.{Holds-pure}
use tenta_cron.Store.Invariant.Methods.{
  mark_completed-Keeps, mark_failed-Keeps, mark_awaiting_target-Keeps, requeue-Keeps,
}
use tenta_cron.Store.Invariant.Claim.{get_job-Keeps}
use tenta_cron.Store.Invariant.Recovery.{reschedule_poll-Keeps}
use tenta_cron.Worker.Process.{
  UpstreamError, RetryConfig, quiet, fail_job, requeue_after, retry_or_fail, Body, Poll,
  TargetConfig, Files, discard_late_result, dropped, mark_done, complete, complete_file, Reply,
  replied, refused, park_as, park_for_polling, settle_reply, forward, PollReply, polled,
  unreachable, Download, spooled, undelivered, complete_read, complete_moved, complete_spooled,
  fetch_and_complete, settle_poll, end_tick, tick, process_poll,
}

pub fail_job-Keeps :
    (job : Job) (code : String) (message : Detail) → Keeps (fail_job job code message)
unfolding fail_job
fail_job-Keeps job code message = search (keeps_rules, mark_failed-Keeps)

requeue_after-Keeps :
    (cfg : RetryConfig) (job : Job) (x : UpstreamError) (b : Option ℕ)
    → Keeps (requeue_after cfg job x b)
requeue_after-Keeps cfg job x none = fail_job-Keeps _ _ _
requeue_after-Keeps cfg job x (some b) = search (keeps_rules, requeue-Keeps)

pub retry_or_fail-Keeps :
    (cfg : RetryConfig) (job : Job) (code : String) (x : UpstreamError)
    → Keeps (retry_or_fail cfg job code x)
unfolding retry_or_fail
retry_or_fail-Keeps cfg job code x = search (keeps_rules, fail_job-Keeps, requeue_after-Keeps)

discard-Keeps :
    (id : String) (file : Option (String × String)) → Keeps (discard_late_result id file)
unfolding discard_late_result
discard-Keeps id none = Holds-pure quiet
discard-Keeps id (some (path, content_type)) = search (keeps_rules, get_job-Keeps)

dropped-Keeps :
    (id : String) (file : Option (String × String)) (x : Error) → Keeps (dropped id file x)
dropped-Keeps id file terminal_state = discard-Keeps id file
dropped-Keeps id file _ = Holds-pure quiet

mark_done-Keeps :
    (job : Job) (status : ℕ) (body : Option String) (file : Option (String × String))
    (detail : Detail)
    → Keeps (mark_done job status body file detail)
unfolding mark_done
mark_done-Keeps job status body file detail =
    search (keeps_rules, mark_completed-Keeps, dropped-Keeps)

complete_file-Keeps :
    (job : Job) (status : ℕ) (content_type : String) (detail : Detail) (path : Option String)
    → Keeps (complete_file job status content_type detail path)
complete_file-Keeps job status content_type detail none = fail_job-Keeps _ _ _
complete_file-Keeps job status content_type detail (some path) = mark_done-Keeps _ _ _ _ _

complete-Keeps :
    (files : Files) (job : Job) (status : ℕ) (declared : Option String) (body : Body)
    (detail : Detail)
    → Keeps (complete files job status declared body detail)
unfolding complete
complete-Keeps files job status declared body detail =
    search (keeps_rules, mark_done-Keeps, complete_file-Keeps)

park_as-Keeps :
    (job : Job) (poll : Poll) (status : ℕ) (body : Body) (id : Option String)
    → Keeps (park_as job poll status body id)
park_as-Keeps job poll status body none = fail_job-Keeps _ _ _
park_as-Keeps job poll status body (some id) = search (keeps_rules, mark_awaiting_target-Keeps)

settle_reply-Keeps :
    (files : Files) (job : Job) (poll : Option Poll) (status : ℕ) (body : Body)
    → Keeps (settle_reply files job poll status body)
unfolding park_for_polling
settle_reply-Keeps files job none status body = complete-Keeps _ _ _ _ _ _
settle_reply-Keeps files job (some poll) status body =
    park_as-Keeps job poll status body (poll.extract_job_id body)

pub forward-Keeps :
    (cfg : RetryConfig) (files : Files) (job : Job) (target : TargetConfig) (reply : Reply)
    → Keeps (forward cfg files job target reply)
unfolding forward
forward-Keeps cfg files job target (replied status body) = settle_reply-Keeps _ _ _ _ _
forward-Keeps cfg files job target (refused x) =
    search (keeps_rules, fail_job-Keeps, retry_or_fail-Keeps)

complete_read-Keeps :
    (files : Files) (job : Job) (declared : Option String) (detail : Detail) (body : Option Body)
    → Keeps (complete_read files job declared detail body)
complete_read-Keeps files job declared detail none = fail_job-Keeps _ _ _
complete_read-Keeps files job declared detail (some body) = complete-Keeps _ _ _ _ _ _

complete_moved-Keeps :
    (job : Job) (content_type : String) (detail : Detail) (path : Option String)
    → Keeps (complete_moved job content_type detail path)
complete_moved-Keeps job content_type detail none = fail_job-Keeps _ _ _
complete_moved-Keeps job content_type detail (some path) = mark_done-Keeps _ _ _ _ _

fetch_and_complete-Keeps :
    (files : Files) (job : Job) (raw : String) (past : Bool) (d : Download)
    → Keeps (fetch_and_complete files job raw past d)
unfolding fetch_and_complete complete_spooled
fetch_and_complete-Keeps files job raw past (spooled declared spool) =
    search (keeps_rules, complete_read-Keeps, complete_moved-Keeps)
fetch_and_complete-Keeps files job raw past (undelivered x) = search (keeps_rules, fail_job-Keeps)

settle_poll-Keeps :
    (files : Files) (job : Job) (past : Bool) (reply : PollReply) (d : Download)
    → Keeps (settle_poll files job past reply d)
unfolding settle_poll
settle_poll-Keeps files job past (unreachable x) d = search (keeps_rules, fail_job-Keeps)
settle_poll-Keeps files job past (polled failed done raw) d =
    search (keeps_rules, fail_job-Keeps, fetch_and_complete-Keeps)

tick-Keeps :
    (files : Files) (job : Job) (poll : Option Poll) (reply : PollReply) (d : Download)
    → Keeps (tick files job poll reply d)
tick-Keeps files job none reply d = fail_job-Keeps _ _ _
tick-Keeps files job (some poll) reply d = search (keeps_rules, settle_poll-Keeps)

pub process_poll-Keeps :
    (fallback : ℕ) (files : Files) (job : Job) (poll : Option Poll) (reply : PollReply)
    (d : Download)
    → Keeps (process_poll fallback files job poll reply d)
unfolding process_poll end_tick
process_poll-Keeps fallback files job poll reply d =
    search (keeps_rules, tick-Keeps, reschedule_poll-Keeps)
