-- ===== src/Worker/Attempt.antt =====
-- internal/worker/process.go, up to the forward: `process`, `processNew`, `handThrough`,
-- `failResolution`, `forwardResolved` and `fetchOne`. What the configuration, the plan, the fetches
-- and the target say is an argument. A panic is left out.
pub mod Keeps
pub mod Cached
use tenta_cron.Prelude.{ℕ, String, Bool, true, false, Option, none, some, if◌then◌else◌}
use tenta_cron.Store.Model.{
  CacheMode, cache_default, cache_use, cache_bypass, cache_refresh, Detail, resolved, State,
  received, resolving, forwarding, awaiting_target, completed, cancelled, Job,
}
use tenta_cron.Store.Sql.{M, pure, recover}
use tenta_cron.Store.Transition.{set_resolved}
use tenta_cron.Store.Cache.{get_series, put_series}
use tenta_cron.Worker.Process.{
  UpstreamError, RetryConfig, Ending, quiet, fail_job, retry_or_fail, Files, TargetConfig, Reply,
  forward, Poll, PollReply, Download, process_poll,
}
use tenta_cron.Worker.Fetch.{Outcome, fetched, failed}

-- Whether the mode reads the series cache, and whether it writes it.
abbrev pub reads_cache : CacheMode → Bool
reads_cache cache_default = true
reads_cache cache_use = true
reads_cache cache_bypass = false
reads_cache cache_refresh = false

abbrev pub writes_cache : CacheMode → Bool
writes_cache cache_default = true
writes_cache cache_use = true
writes_cache cache_bypass = false
writes_cache cache_refresh = true

-- What `callResolventBackend` came to.
pub data Called : Type 0 where
  returned : String → Called
  not_called : UpstreamError → Called

-- A resolvent's type as a fetch reads it. `adapt` is `ExtractPath`, `ApplyMap` and the test that the
-- body is a JSON object, as far as they are configured: the body that is kept, or none.
pub record ResolventConfig : Type 0 where
  pub type_name : String
  pub cache_ttl : ℕ
  pub adapt : String → Option String

abbrev pub bad_resource_body : UpstreamError
bad_resource_body = record {
  transient = false;
  cancelled = false;
  deadline = false;
  bad_body = true;
  bad_reference = false;
  message = "resource response is not a JSON object";
}

-- A write to the cache that fails is logged.
abbrev pub store_series : ResolventConfig → CacheMode → String → Option String → M Outcome
store_series rcfg mode hash none = pure (failed bad_resource_body)
store_series rcfg mode hash (some body) =
    if writes_cache mode
    then recover (put_series hash rcfg.type_name body rcfg.cache_ttl)
        (λ x. pure (fetched body false)) (λ _. pure (fetched body false))
    else pure (fetched body false)

abbrev pub fetch_fresh : ResolventConfig → CacheMode → String → Called → M Outcome
fetch_fresh rcfg mode hash (not_called x) = pure (failed x)
fetch_fresh rcfg mode hash (returned body) = store_series rcfg mode hash (rcfg.adapt body)

abbrev pub fetch_unless : ResolventConfig → CacheMode → String → Called → Option String → M Outcome
fetch_unless rcfg mode hash called none = fetch_fresh rcfg mode hash called
fetch_unless rcfg mode hash called (some body) = pure (fetched body true)

-- `fetchOne`: an error of the cache is a miss.
unfoldable pub fetch_one : ResolventConfig → CacheMode → String → Called → M Outcome
fetch_one rcfg mode hash called =
    if reads_cache mode
    then recover (get_series hash) (λ x. fetch_fresh rcfg mode hash called)
        (fetch_unless rcfg mode hash called)
    else fetch_fresh rcfg mode hash called

-- `failResolution`
unfoldable pub fail_resolution : RetryConfig → Job → UpstreamError → M Ending
fail_resolution cfg job x =
    if x.bad_body
    then fail_job job "invalid_resource_response" (Detail.text x.message)
    else (if x.bad_reference
        then fail_job job "invalid_payload" (Detail.text x.message)
        else retry_or_fail cfg job "resource_error" x)

-- `forwardResolved`, and `handThrough` with its own detail.
unfoldable pub forward_resolved :
    RetryConfig → Files → Job → TargetConfig → Reply → String → Detail → M Ending
forward_resolved cfg files job target reply payload detail =
    recover (set_resolved job.id payload detail) (λ x. pure quiet)
      (λ _. forward cfg files job target reply)

-- What `fetchChain` and `substitute` came to: the error of a fetch, a failure with its code, or the
-- resolved payload with the numbers of resolvents and of hits.
pub data Resolution : Type 0 where
  unfetched : UpstreamError → Resolution
  unspliced : String → String → Resolution
  spliced : String → ℕ → ℕ → Resolution

abbrev pub settle_resolution :
    RetryConfig → Files → Job → TargetConfig → Reply → Resolution → M Ending
settle_resolution cfg files job target reply (unfetched x) = fail_resolution cfg job x
settle_resolution cfg files job target reply (unspliced code message) =
    fail_job job code (Detail.text message)
settle_resolution cfg files job target reply (spliced payload count cached) =
    forward_resolved cfg files job target reply payload (resolved count cached)

-- A target as `processNew` reads it, and the code and message of the plan's first problem.
pub record Intake : Type 0 where
  pub proxy : Bool
  pub target : TargetConfig
  pub problem : Option (String × String)
  pub resolution : Resolution
  pub reply : Reply

abbrev pub resolve_or_fail :
    RetryConfig → Files → Job → Intake → Option (String × String) → M Ending
resolve_or_fail cfg files job intake (some (code, message)) =
    fail_job job code (Detail.text message)
resolve_or_fail cfg files job intake none =
    settle_resolution cfg files job intake.target intake.reply intake.resolution

-- `processNew`
unfoldable pub process_new : RetryConfig → Files → Job → Option Intake → M Ending
process_new cfg files job none = fail_job job "unknown_target" (Detail.unconfigured job.target)
process_new cfg files job (some intake) =
    if intake.proxy
    then forward_resolved cfg files job intake.target intake.reply job.payload
        (Detail.text "proxy target: payload handed through unresolved")
    else resolve_or_fail cfg files job intake intake.problem

-- A poll tick as `processPoll` meets it.
pub record PollIntake : Type 0 where
  pub poll : Option Poll
  pub answer : PollReply
  pub download : Download

abbrev pub process_as :
    ℕ → RetryConfig → Files → Job → Option Intake → PollIntake → State → M Ending
process_as fallback cfg files job intake tick resolving = process_new cfg files job intake
process_as fallback cfg files job intake tick awaiting_target =
    process_poll fallback files job tick.poll tick.answer tick.download
process_as fallback cfg files job intake tick _ = pure quiet

-- `process`: a claimed job is resolving or awaiting its target; any other is logged.
unfoldable pub process : ℕ → RetryConfig → Files → Job → Option Intake → PollIntake → M Ending
process fallback cfg files job intake tick = process_as fallback cfg files job intake tick job.state
