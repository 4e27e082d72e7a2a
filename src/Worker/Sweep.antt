-- ===== src/Worker/Sweep.antt =====
-- internal/worker/sweep.go: `sweep` with its three passes over the tables. Compacting the file, the
-- removal of result files and the counts that are logged are left out.
pub mod Ends
pub mod Keeps
pub mod Spares
use tenta_cron.Prelude.{
  ℕ, zero, suc, ◌-◌, ◌*◌, String, Bool, true, false, List, [], ◌∷◌, if◌then◌else◌, ltb, length,
}
use tenta_cron.Store.Sql.{M, pure, recover, time_now, ◌>>=◌, ◌>>◌}
use tenta_cron.Store.Recovery.{rescue_stuck}
use tenta_cron.Store.Retention.{terminal_before, delete_jobs}
use tenta_cron.Store.Cache.{purge_expired_series}

pub record SweepConfig : Type 0 where
  -- `JobTimeoutFor`
  pub job_timeout_for : String → ℕ
  -- `storage.retention`
  pub retention : ℕ

-- `purgeExpiredSeries`
unfoldable pub purge : M (Unit {0})
purge = recover purge_expired_series (λ x. pure tt) (λ n. pure tt)

-- `rescueStuckJobs`: twice the target's own deadline.
unfoldable pub rescue_stuck_jobs : SweepConfig → M (Unit {0})
rescue_stuck_jobs cfg = do
  now ← time_now
  recover (rescue_stuck (λ target. now - 2 * cfg.job_timeout_for target)) (λ x. pure tt)
      (λ n. pure tt)

-- `pruneBatch`
abbrev pub batch_size : ℕ
batch_size = 1000

-- The rest of a round of `pruneRetention`; `rest` is the rounds that follow a full batch. A round
-- that ends the loop returns true.
abbrev pub prune_batch : ℕ → M Bool → List String → M Bool
prune_batch batch rest [] = pure true
prune_batch batch rest (id ∷ ids) =
    recover (delete_jobs (id ∷ ids)) (λ x. pure true)
      (λ _. if ltb (length (id ∷ ids)) batch then pure true else rest)

-- The loop of `pruneRetention`; false is returned where the fuel is used up.
unfoldable pub prune_from : ℕ → ℕ → ℕ → M Bool
prune_from zero cutoff batch = pure false
prune_from (suc fuel) cutoff batch =
    recover (terminal_before cutoff batch) (λ x. pure true)
      (λ found. prune_batch batch (prune_from fuel cutoff batch) found.0)

-- `pruneRetention`
unfoldable pub prune_retention : ℕ → SweepConfig → M Bool
prune_retention fuel cfg = do now ← time_now; prune_from fuel (now - cfg.retention) batch_size

-- `sweep`
unfoldable pub sweep : ℕ → SweepConfig → M Bool
sweep fuel cfg = do purge; rescue_stuck_jobs cfg; prune_retention fuel cfg
