-- ===== src/Worker/Attempt/Keeps.antt =====
-- An attempt on a job keeps the tables valid, and so does each fetch.
use tenta_cron.Prelude.{ℕ, String, Option, none, some}
use tenta_cron.Store.Model.{CacheMode, Detail, State, resolving, awaiting_target, Job}
use tenta_cron.Store.Sql.{Env, World}
use tenta_cron.Store.Sql.Holds.{Holds-pure}
use tenta_cron.Store.Cache.{get_series}
use tenta_cron.Store.Invariant.{IsValid}
use tenta_cron.Store.Invariant.Keeps.{Keeps, keeps_rules}
use tenta_cron.Store.Invariant.Methods.{set_resolved-Keeps}
use tenta_cron.Store.Invariant.Others.{put_series-Keeps}
use tenta_cron.Worker.Process.{UpstreamError, RetryConfig, Files, TargetConfig, Reply}
use tenta_cron.Worker.Process.Keeps.{
  fail_job-Keeps, retry_or_fail-Keeps, forward-Keeps, process_poll-Keeps,
}
use tenta_cron.Worker.Attempt.{
  Called, returned, not_called, ResolventConfig, store_series, fetch_fresh, fetch_unless, fetch_one,
  fail_resolution, forward_resolved, Resolution, unfetched, unspliced, spliced, settle_resolution,
  Intake, resolve_or_fail, process_new, PollIntake, process_as, process,
}

store_series-Keeps :
    (rcfg : ResolventConfig) (mode : CacheMode) (hash : String) (body : Option String)
    → Keeps (store_series rcfg mode hash body)
store_series-Keeps rcfg mode hash none = Holds-pure _
store_series-Keeps rcfg mode hash (some body) = search (keeps_rules, put_series-Keeps)

fetch_fresh-Keeps :
    (rcfg : ResolventConfig) (mode : CacheMode) (hash : String) (called : Called)
    → Keeps (fetch_fresh rcfg mode hash called)
fetch_fresh-Keeps rcfg mode hash (not_called x) = Holds-pure _
fetch_fresh-Keeps rcfg mode hash (returned body) =
    store_series-Keeps rcfg mode hash (rcfg.adapt body)

fetch_unless-Keeps :
    (rcfg : ResolventConfig) (mode : CacheMode) (hash : String) (called : Called)
    (hit : Option String)
    → Keeps (fetch_unless rcfg mode hash called hit)
fetch_unless-Keeps rcfg mode hash called none = fetch_fresh-Keeps rcfg mode hash called
fetch_unless-Keeps rcfg mode hash called (some body) = Holds-pure _

get_series-Keeps : (hash : String) → Keeps (get_series hash)
unfolding get_series
get_series-Keeps hash = search keeps_rules

pub fetch_one-Keeps :
    (rcfg : ResolventConfig) (mode : CacheMode) (hash : String) (called : Called)
    → Keeps (fetch_one rcfg mode hash called)
unfolding fetch_one
fetch_one-Keeps rcfg mode hash called =
    search (keeps_rules, get_series-Keeps, fetch_fresh-Keeps, fetch_unless-Keeps)

fail_resolution-Keeps :
    (cfg : RetryConfig) (job : Job) (x : UpstreamError) → Keeps (fail_resolution cfg job x)
unfolding fail_resolution
fail_resolution-Keeps cfg job x = search (keeps_rules, fail_job-Keeps, retry_or_fail-Keeps)

forward_resolved-Keeps :
    (cfg : RetryConfig) (files : Files) (job : Job) (target : TargetConfig) (reply : Reply)
    (payload : String) (detail : Detail)
    → Keeps (forward_resolved cfg files job target reply payload detail)
unfolding forward_resolved
forward_resolved-Keeps cfg files job target reply payload detail =
    search (keeps_rules, set_resolved-Keeps, forward-Keeps)

settle_resolution-Keeps :
    (cfg : RetryConfig) (files : Files) (job : Job) (target : TargetConfig) (reply : Reply)
    (r : Resolution)
    → Keeps (settle_resolution cfg files job target reply r)
settle_resolution-Keeps cfg files job target reply (unfetched x) = fail_resolution-Keeps cfg job x
settle_resolution-Keeps cfg files job target reply (unspliced code message) = fail_job-Keeps _ _ _
settle_resolution-Keeps cfg files job target reply (spliced payload count cached) =
    forward_resolved-Keeps _ _ _ _ _ _ _

resolve_or_fail-Keeps :
    (cfg : RetryConfig) (files : Files) (job : Job) (intake : Intake)
    (problem : Option (String × String))
    → Keeps (resolve_or_fail cfg files job intake problem)
resolve_or_fail-Keeps cfg files job intake none = settle_resolution-Keeps _ _ _ _ _ _
resolve_or_fail-Keeps cfg files job intake (some (code, message)) = fail_job-Keeps _ _ _

process_new-Keeps :
    (cfg : RetryConfig) (files : Files) (job : Job) (intake : Option Intake)
    → Keeps (process_new cfg files job intake)
unfolding process_new
process_new-Keeps cfg files job none = fail_job-Keeps _ _ _
process_new-Keeps cfg files job (some intake) =
    search (keeps_rules, forward_resolved-Keeps, resolve_or_fail-Keeps)

process_as-Keeps :
    (fallback : ℕ) (cfg : RetryConfig) (files : Files) (job : Job) (intake : Option Intake)
    (tick : PollIntake) (state : State)
    → Keeps (process_as fallback cfg files job intake tick state)
process_as-Keeps fallback cfg files job intake tick resolving = process_new-Keeps _ _ _ _
process_as-Keeps fallback cfg files job intake tick awaiting_target = process_poll-Keeps _ _ _ _ _ _
process_as-Keeps fallback cfg files job intake tick _ = Holds-pure _

pub process-Keeps :
    (fallback : ℕ) (cfg : RetryConfig) (files : Files) (job : Job) (intake : Option Intake)
    (tick : PollIntake)
    → Keeps (process fallback cfg files job intake tick)
unfolding process
process-Keeps fallback cfg files job intake tick = process_as-Keeps _ _ _ _ _ _ _

-- What a worker does with a claimed job, be it resolving or awaiting its target, leaves valid tables
-- valid, whatever the configuration, the plan, the fetches, the target and the file system say and
-- whatever fails.
pub process-IsValid :
    (fallback : ℕ) (cfg : RetryConfig) (files : Files) (job : Job) (intake : Option Intake)
    (tick : PollIntake) (e : Env) (w : World)
    → IsValid w.db
    → IsValid (process fallback cfg files job intake tick e w).1.db
process-IsValid fallback cfg files job intake tick e w v =
    (process-Keeps fallback cfg files job intake tick).keeps e w v
