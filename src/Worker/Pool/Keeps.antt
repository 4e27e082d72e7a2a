-- ===== src/Worker/Pool/Keeps.antt =====
-- The start of the pool and a worker's loop keep the tables valid.
use tenta_cron.Prelude.{ℕ, zero, suc, String, Option, none, some}
use tenta_cron.Store.Model.{Job}
use tenta_cron.Store.Sql.{M, Env, World}
use tenta_cron.Store.Sql.Holds.{Holds-pure, Holds-recover}
use tenta_cron.Store.Invariant.{IsValid}
use tenta_cron.Store.Invariant.Keeps.{Keeps, keeps_rules}
use tenta_cron.Store.Invariant.Claim.{claim_next-Keeps}
use tenta_cron.Store.Invariant.Recovery.{recover_in_flight-Keeps, reset_poll_schedules-Keeps}
use tenta_cron.Worker.Attempt.Keeps.{process-Keeps}
use tenta_cron.Worker.Pool.{PoolConfig, Surroundings, claim_policy, start_up, work_on, drain}

start_up-Keeps : (cfg : PoolConfig) (random : String → ℕ → ℕ) → Keeps (start_up cfg random)
unfolding start_up
start_up-Keeps cfg random =
    search (keeps_rules, recover_in_flight-Keeps, reset_poll_schedules-Keeps)

work_on-Keeps :
    (cfg : PoolConfig) (around : Surroundings) (rest : M (Unit {0})) (job : Option Job)
    → Keeps rest
    → Keeps (work_on cfg around rest job)
work_on-Keeps cfg around rest none k = Holds-pure tt
work_on-Keeps cfg around rest (some job) k =
    Holds-recover _ _ _ (process-Keeps _ _ _ job (around.intake job) (around.tick job)) (λ x. k)
      (λ _. k)

drain-Keeps : (n : ℕ) (cfg : PoolConfig) (around : Surroundings) → Keeps (drain n cfg around)
unfolding drain
drain-Keeps zero cfg around = Holds-pure tt
drain-Keeps (suc n) cfg around =
    Holds-recover _ _ _ (claim_next-Keeps (claim_policy cfg)) (λ x. Holds-pure tt)
      (λ job. work_on-Keeps cfg around (drain n cfg around) job (drain-Keeps n cfg around))

-- The recovery and the spread of poll schedules with which the pool starts leave valid tables valid,
-- wherever an error ends them.
pub start_up-IsValid :
    (cfg : PoolConfig) (random : String → ℕ → ℕ) (e : Env) (w : World)
    → IsValid w.db
    → IsValid (start_up cfg random e w).1.db
start_up-IsValid cfg random e w v = (start_up-Keeps cfg random).keeps e w v

-- A worker that claims and works on any number of jobs, one after another, under any ceilings and
-- leases, whatever it is told about them and whatever fails, leaves valid tables valid.
pub drain-IsValid :
    (n : ℕ) (cfg : PoolConfig) (around : Surroundings) (e : Env) (w : World)
    → IsValid w.db
    → IsValid (drain n cfg around e w).1.db
drain-IsValid n cfg around e w v = (drain-Keeps n cfg around).keeps e w v
