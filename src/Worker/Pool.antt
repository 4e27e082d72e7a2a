-- ===== src/Worker/Pool.antt =====
-- internal/worker/pool.go: what `Run` does first, and `drain`, the loop of a worker. Goroutines,
-- tickers and the nudge decide only when `drain` runs again.
pub mod Keeps
use tenta_cron.Prelude.{ℕ, zero, suc, ◌+◌, String, Bool, Option, none, some, if◌then◌else◌}
use tenta_cron.Store.Model.{Job}
use tenta_cron.Store.Sql.{M, pure, recover, ◌>>◌}
use tenta_cron.Store.Claim.{ClaimPolicy, claim_next}
use tenta_cron.Store.Recovery.{recover_in_flight, reset_poll_schedules}
use tenta_cron.Worker.Process.{RetryConfig, Files, Poll}
use tenta_cron.Worker.Attempt.{Intake, PollIntake, process}

-- A target as the pool reads it: its timeout, and its poll section in poll mode with the budget of a
-- result download.
pub record PoolTarget : Type 0 where
  pub timeout : ℕ
  pub poll : Option (ℕ × ℕ)

pub record PoolConfig : Type 0 where
  pub target : String → Option PoolTarget
  pub poll_interval : ℕ
  -- `MaxConcurrentFor`, and `HasConcurrencyCeilings`
  pub max_concurrent_for : String → ℕ
  pub has_ceilings : Bool

abbrev pub interval_or : ℕ → Option (ℕ × ℕ) → ℕ
interval_or fallback none = fallback
interval_or fallback (some (interval, budget)) = interval

abbrev pub lease_or : ℕ → ℕ → Option (ℕ × ℕ) → ℕ
lease_or fallback timeout none = fallback
lease_or fallback timeout (some (interval, budget)) = timeout + budget + interval

abbrev pub interval_for : ℕ → Option PoolTarget → ℕ
interval_for fallback none = fallback
interval_for fallback (some t) = interval_or fallback t.poll

abbrev pub lease_for : ℕ → Option PoolTarget → ℕ
lease_for fallback none = fallback
lease_for fallback (some t) = lease_or fallback t.timeout t.poll

-- `pollInterval`
unfoldable pub poll_interval : PoolConfig → String → ℕ
poll_interval cfg target = interval_for cfg.poll_interval (cfg.target target)

-- `pollLease`
unfoldable pub poll_lease : PoolConfig → String → ℕ
poll_lease cfg target = lease_for cfg.poll_interval (cfg.target target)

-- `claimPolicy`
unfoldable pub claim_policy : PoolConfig → ClaimPolicy
claim_policy cfg = record {
  poll_lease = some (poll_lease cfg);
  max_concurrent = if cfg.has_ceilings then some cfg.max_concurrent_for else none;
}

-- What `Run` does before the goroutines start; an error is logged.
unfoldable pub start_up : PoolConfig → (String → ℕ → ℕ) → M (Unit {0})
start_up cfg random = do
  recover recover_in_flight (λ x. pure tt) (λ n. pure tt)
  recover (reset_poll_schedules random (poll_interval cfg)) (λ x. pure tt) (λ n. pure tt)

-- What the world says to a job that is worked on.
pub record Surroundings : Type 0 where
  pub retries : RetryConfig
  pub files : Files
  pub intake : Job → Option Intake
  pub tick : Job → PollIntake

abbrev pub work_on : PoolConfig → Surroundings → M (Unit {0}) → Option Job → M (Unit {0})
work_on cfg around rest none = pure tt
work_on cfg around rest (some job) =
    recover
      (process cfg.poll_interval around.retries around.files job (around.intake job)
        (around.tick job))
      (λ x. rest) (λ _. rest)

-- `drain`, for the jobs that a worker claims before its context ends.
unfoldable pub drain : ℕ → PoolConfig → Surroundings → M (Unit {0})
drain zero cfg around = pure tt
drain (suc n) cfg around =
    recover (claim_next (claim_policy cfg)) (λ x. pure tt) (work_on cfg around (drain n cfg around))
