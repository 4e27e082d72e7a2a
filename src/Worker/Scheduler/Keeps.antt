-- ===== src/Worker/Scheduler/Keeps.antt =====
-- A tick of the scheduler keeps the tables valid (internal/worker/scheduler.go).
use tenta_cron.Prelude.{ℕ, ◌+◌, String, Option, none, some, List, [], ◌∷◌}
use tenta_cron.Store.Model.{Schedule}
use tenta_cron.Store.Sql.{Env, World}
use tenta_cron.Store.Sql.Holds.{Holds-pure, Holds-bind}
use tenta_cron.Store.Schedules.{due_schedules}
use tenta_cron.Store.Invariant.{IsValid}
use tenta_cron.Store.Invariant.Keeps.{Keeps, keeps_rules}
use tenta_cron.Store.Invariant.Create.{create_job-Keeps}
use tenta_cron.Store.Invariant.Others.{advance_schedule-Keeps}
use tenta_cron.Worker.Scheduler.{
  SchedulerConfig, materialize_run, materialize_as, materialize, materialize_each,
  run_due_schedules,
}

materialize_run-Keeps :
    (cfg : SchedulerConfig) (s : Schedule) (next : ℕ → ℕ) (due now : ℕ) (id : String)
    → Keeps (materialize_run cfg s next due now id)
unfolding materialize_run
materialize_run-Keeps cfg s next due now id =
    search (keeps_rules, create_job-Keeps, advance_schedule-Keeps)

materialize_as-Keeps :
    (cfg : SchedulerConfig) (s : Schedule) (now : ℕ) (next : Option (ℕ → ℕ)) (due : Option ℕ)
    (id : Option String)
    → Keeps (materialize_as cfg s now next due id)
materialize_as-Keeps cfg s now (some next) (some due) (some id) =
    materialize_run-Keeps cfg s next _ now id
materialize_as-Keeps cfg s now (some next) (some due) none = Holds-pure _
materialize_as-Keeps cfg s now (some next) none id = Holds-pure _
materialize_as-Keeps cfg s now none due id = Holds-pure _

materialize_each-Keeps :
    (cfg : SchedulerConfig) (now n : ℕ) (ss : List Schedule) → Keeps (materialize_each cfg now n ss)
unfolding materialize_each materialize
materialize_each-Keeps cfg now n [] = Holds-pure _
materialize_each-Keeps cfg now n (s ∷ ss) =
    Holds-bind _ _
      (materialize_as-Keeps cfg s now (cfg.parse s.cron s.timezone) s.next_run_at (cfg.new_id n))
      (λ _. materialize_each-Keeps cfg now (n + 1) ss)

run_due_schedules-Keeps : (cfg : SchedulerConfig) → Keeps (run_due_schedules cfg)
unfolding run_due_schedules due_schedules
run_due_schedules-Keeps cfg = search (keeps_rules, materialize_each-Keeps)

-- A tick of the scheduler, whatever the cron library, the random ids and the faults, leaves valid
-- tables valid.
pub run_due_schedules-IsValid :
    (cfg : SchedulerConfig) (e : Env) (w : World)
    → IsValid w.db
    → IsValid (run_due_schedules cfg e w).1.db
run_due_schedules-IsValid cfg e w v = (run_due_schedules-Keeps cfg).keeps e w v
