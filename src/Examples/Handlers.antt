-- ===== src/Examples/Handlers.antt =====
-- The handlers of several transactions at concrete inputs.
use tenta_cron.Worker.Process.{UpstreamError}
use tenta_cron.Prelude.{Option}
use tenta_cron.Runs.{empty}
use tenta_cron.Prelude.{arith}
use tenta_cron.Store.Sql.{World}
use tenta_cron.Prelude.{◌≡◌, refl, true, false, none, some, String, [], ◌∷◌}
use tenta_cron.Prelude.Tables.{find_by}
use tenta_cron.Store.Model.{Job}
use tenta_cron.Store.Sql.{ok}
use tenta_cron.Store.Recovery.{recover_in_flight}
use tenta_cron.Worker.Sweep.{SweepConfig, prune_from, sweep}
use tenta_cron.Worker.Sweep.Spares.{prune_from-spares, sweep-spares}
use tenta_cron.Prelude.{inl, inr}
use tenta_cron.Store.Model.{Delivery, cancelled}
use tenta_cron.Store.Sql.{recover, ◌>>=◌}
use tenta_cron.Store.Create.{get_job}
use tenta_cron.Store.Transition.{new_delivery}
use tenta_cron.Store.Deliveries.{record_attempt}
use tenta_cron.Callback.Deliverer.{Answer, delivered, is_delivered, attempt, classify, deliver_one}
use tenta_cron.Callback.Deliverer.Settled.{RowAfter, deliver_one-RowAfter}
use tenta_cron.Worker.Sweep.Ends.{prune_from-Ended}
use tenta_cron.Worker.Process.{RetryConfig}
use tenta_cron.Runs.Validity.{reachable-IsValid}
use tenta_cron.Prelude.{length}
use tenta_cron.Store.Model.{is_held}
use tenta_cron.Store.Recovery.{held_ids}
use tenta_cron.Runs.Restart.{recover_in_flight-drains}
use tenta_cron.Examples.{
  calm_env, running, row, ended_row, queued_row, ended_is_over, cancelled_run, queued, ended, held,
  callbacks, queued-IsValid, held-IsValid,
}

recover_in_flight-drains_example :
    ((recover_in_flight calm_env held).0 ≡ ok (length (held_ids held.db)))
    × ((k : String) (j : Job)
        → find_by (λ j. j.id) k (recover_in_flight calm_env held).1.db.jobs ≡ some j
        → is_held j.state ≡ false)
recover_in_flight-drains_example = recover_in_flight-drains calm_env held held-IsValid (λ n. refl)

abbrev retries : RetryConfig
retries = record { base = 1000000000; max_backoff = 60000000000; jitter = λ b. b }

abbrev sweep_config : SweepConfig
sweep_config = record { job_timeout_for = λ target. 1000000000; retention = 86400000000000 }

-- One job is in the tables, which a worker holds.
abbrev one_job : World
one_job = record empty { db = record (empty.db) { jobs = running ∷ [] } }

prune_from-Ended_example : (prune_from 2 9000000000 1 calm_env one_job).0 ≡ ok true
prune_from-Ended_example = prune_from-Ended 2 9000000000 1 calm_env one_job (omega arith)

sweep-spares_example :
    find_by (λ j. j.id) "job-1" (sweep 5 sweep_config calm_env queued).1.db.jobs ≡ some row
sweep-spares_example =
    sweep-spares 5 sweep_config "job-1" row calm_env queued queued-IsValid queued_row (inl refl)

-- The job ended at five seconds, and the cutoff is at four.
prune_from-spares_example :
    find_by (λ j. j.id) "job-1" (prune_from 5 4000000000 1000 calm_env ended).1.db.jobs
    ≡ some ended_row
prune_from-spares_example =
    prune_from-spares 5 4000000000 1000 "job-1" ended_row calm_env ended
      (reachable-IsValid cancelled_run) ended_is_over (inr (5000, refl, omega arith))

abbrev due_row : Delivery
due_row = new_delivery "job-1" "https://hooks.example.org/done" cancelled 5000000000

abbrev due : World
due = record empty { db = record (empty.db) { jobs = ended_row ∷ []; deliveries = due_row ∷ [] } }

abbrev unrefused : Option String
unrefused = none

abbrev accepting : Delivery → Job → Answer
accepting v j = record { status = 200; error = none }

counted : (deliver_one callbacks accepting due_row none calm_env due).0 ≡ ok (some delivered)
unfolding attempt get_job record_attempt classify find_by recover ◌>>=◌
counted = refl

deliver_one-RowAfter_example :
    RowAfter due_row delivered (deliver_one callbacks accepting due_row none calm_env due).1.db
    × (is_delivered delivered ≡ true
        → (unrefused ≡ none) × ((j : Job) × ((accepting due_row j).error ≡ none)))
deliver_one-RowAfter_example =
    deliver_one-RowAfter callbacks accepting due_row none delivered calm_env due counted

abbrev bad_gateway : UpstreamError
bad_gateway = record {
  transient = true;
  cancelled = false;
  deadline = false;
  bad_body = false;
  bad_reference = false;
  message = "502 from target";
}
