-- ===== src/Worker/Sweep/Keeps.antt =====
-- A sweep keeps the tables valid.
use tenta_cron.Prelude.{ℕ, zero, suc, Bool, true, List, [], ◌∷◌, String}
use tenta_cron.Store.Sql.{Env, World, M}
use tenta_cron.Store.Sql.Holds.{Holds-pure, Holds-if, Holds-recover}
use tenta_cron.Store.Retention.{terminal_before}
use tenta_cron.Store.Invariant.{IsValid}
use tenta_cron.Store.Invariant.Keeps.{Keeps, keeps_rules}
use tenta_cron.Store.Invariant.Recovery.{rescue_stuck-Keeps}
use tenta_cron.Store.Invariant.Retention.{delete_jobs-Keeps}
use tenta_cron.Store.Invariant.Others.{purge_expired_series-Keeps}
use tenta_cron.Worker.Sweep.{
  SweepConfig, purge, rescue_stuck_jobs, prune_batch, prune_from, prune_retention, sweep,
}

pub purge-Keeps : Keeps purge
unfolding purge
purge-Keeps = search (keeps_rules, purge_expired_series-Keeps)

rescue_stuck_jobs-Keeps : (cfg : SweepConfig) → Keeps (rescue_stuck_jobs cfg)
unfolding rescue_stuck_jobs
rescue_stuck_jobs-Keeps cfg = search (keeps_rules, rescue_stuck-Keeps)

prune_batch-Keeps :
    (batch : ℕ) (rest : M Bool) (ids : List String)
    → Keeps rest
    → Keeps (prune_batch batch rest ids)
prune_batch-Keeps batch rest [] k = Holds-pure true
prune_batch-Keeps batch rest (id ∷ ids) k =
    Holds-recover _ _ _ (delete_jobs-Keeps (id ∷ ids)) (λ x. Holds-pure true)
      (λ _. Holds-if _ _ _ (Holds-pure true) k)

terminal_before-Keeps : (cutoff limit : ℕ) → Keeps (terminal_before cutoff limit)
unfolding terminal_before
terminal_before-Keeps cutoff limit = search keeps_rules

prune_from-Keeps : (fuel cutoff batch : ℕ) → Keeps (prune_from fuel cutoff batch)
unfolding prune_from
prune_from-Keeps zero cutoff batch = Holds-pure _
prune_from-Keeps (suc fuel) cutoff batch = search (
  keeps_rules,
  terminal_before-Keeps,
  λ (ids : List String).
      prune_batch-Keeps batch (prune_from fuel cutoff batch) ids
        (prune_from-Keeps fuel cutoff batch),
)

prune_retention-Keeps : (fuel : ℕ) (cfg : SweepConfig) → Keeps (prune_retention fuel cfg)
unfolding prune_retention
prune_retention-Keeps fuel cfg = search (keeps_rules, prune_from-Keeps)

sweep-Keeps : (fuel : ℕ) (cfg : SweepConfig) → Keeps (sweep fuel cfg)
unfolding sweep
sweep-Keeps fuel cfg =
    search (keeps_rules, purge-Keeps, rescue_stuck_jobs-Keeps, prune_retention-Keeps)

-- A sweep, with its purge, its rescue and however many rounds of its retention, leaves valid tables
-- valid, whatever fails and wherever an error ends a pass.
pub sweep-IsValid :
    (fuel : ℕ) (cfg : SweepConfig) (e : Env) (w : World)
    → IsValid w.db
    → IsValid (sweep fuel cfg e w).1.db
sweep-IsValid fuel cfg e w v = (sweep-Keeps fuel cfg).keeps e w v
