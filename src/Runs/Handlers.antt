-- ===== src/Runs/Handlers.antt =====
-- The methods that make several transactions, and the workers' and the deliverer's handlers over
-- them: wherever a fault or an early return ends them, the tables that they leave are valid
-- (internal/store/jobs.go, internal/worker/process.go, internal/callback/deliverer.go).
use tenta_cron.Prelude.{ℕ, String, Option, List}
use tenta_cron.Store.Model.{Delivery, Job}
use tenta_cron.Store.Sql.{Env, World}
use tenta_cron.Store.Claim.{ClaimPolicy, claim_next}
use tenta_cron.Store.Recovery.{recover_in_flight, rescue_stuck, reset_poll_schedules}
use tenta_cron.Store.Retention.{delete_jobs}
use tenta_cron.Store.Invariant.{IsValid}
use tenta_cron.Store.Invariant.Claim.{claim_next-Keeps}
use tenta_cron.Store.Invariant.Recovery.{
  recover_in_flight-Keeps, rescue_stuck-Keeps, reset_poll_schedules-Keeps,
}
use tenta_cron.Store.Invariant.Retention.{delete_jobs-Keeps}
use tenta_cron.Worker.Process.{
  RetryConfig, Files, TargetConfig, Reply, Poll, PollReply, Download, forward, process_poll,
}
use tenta_cron.Worker.Process.Keeps.{forward-Keeps, process_poll-Keeps}
use tenta_cron.Callback.Deliverer.{CallbackConfig, Answer, deliver_due}
use tenta_cron.Callback.Deliverer.Keeps.{deliver_due-Keeps}

-- Whatever the policy and whatever fails, handing out work leaves valid tables valid.
pub claim_next-IsValid :
    (policy : ClaimPolicy) (e : Env) (w : World)
    → IsValid w.db
    → IsValid (claim_next policy e w).1.db
claim_next-IsValid policy e w v = (claim_next-Keeps policy).keeps e w v

-- Recovery after a restart leaves valid tables valid, wherever an error ends it.
pub recover_in_flight-IsValid :
    (e : Env) (w : World) → IsValid w.db → IsValid (recover_in_flight e w).1.db
recover_in_flight-IsValid e w v = recover_in_flight-Keeps.keeps e w v

-- Rescuing the stuck jobs, with any cutoff for each target, leaves valid tables valid.
pub rescue_stuck-IsValid :
    (cutoff_for : String → ℕ) (e : Env) (w : World)
    → IsValid w.db
    → IsValid (rescue_stuck cutoff_for e w).1.db
rescue_stuck-IsValid cutoff_for e w v = (rescue_stuck-Keeps cutoff_for).keeps e w v

-- Spreading the poll schedules after a restart leaves valid tables valid, whatever the random spread.
pub reset_poll_schedules-IsValid :
    (random : String → ℕ → ℕ) (spread_for : String → ℕ) (e : Env) (w : World)
    → IsValid w.db
    → IsValid (reset_poll_schedules random spread_for e w).1.db
reset_poll_schedules-IsValid random spread_for e w v =
    (reset_poll_schedules-Keeps random spread_for).keeps e w v

-- Deleting jobs in chunks leaves valid tables valid, wherever an error ends it: no event and no
-- delivery is left without its job.
pub delete_jobs-IsValid :
    (ids : List String) (e : Env) (w : World) → IsValid w.db → IsValid (delete_jobs ids e w).1.db
delete_jobs-IsValid ids e w v = (delete_jobs-Keeps ids).keeps e w v

-- Forwarding a job, whatever the target answers and whatever the file system does, leaves valid
-- tables valid: the job is completed, failed, parked or requeued in whole transactions.
pub forward-IsValid :
    (cfg : RetryConfig) (files : Files) (job : Job) (target : TargetConfig) (reply : Reply)
    (e : Env) (w : World)
    → IsValid w.db
    → IsValid (forward cfg files job target reply e w).1.db
forward-IsValid cfg files job target reply e w v =
    (forward-Keeps cfg files job target reply).keeps e w v

-- A poll tick, whatever the status call and the download come to, leaves valid tables valid.
pub process_poll-IsValid :
    (fallback : ℕ) (files : Files) (job : Job) (poll : Option Poll) (reply : PollReply)
    (d : Download) (e : Env) (w : World)
    → IsValid w.db
    → IsValid (process_poll fallback files job poll reply d e w).1.db
process_poll-IsValid fallback files job poll reply d e w v =
    (process_poll-Keeps fallback files job poll reply d).keeps e w v

-- A pass of the deliverer, whatever the allow-list and the receivers say, leaves valid tables valid.
pub deliver_due-IsValid :
    (cfg : CallbackConfig) (check : String → Option String) (post : Delivery → Job → Answer)
    (e : Env) (w : World)
    → IsValid w.db
    → IsValid (deliver_due cfg check post e w).1.db
deliver_due-IsValid cfg check post e w v = (deliver_due-Keeps cfg check post).keeps e w v
