-- ===== src/Runs/Validity.antt =====
-- Every run of the store's transactions keeps the tables valid.
use tenta_cron.Prelude.{refl, List, select_where, count_where, [], ◌∷◌, arith}
use tenta_cron.Prelude.Tables.{find_by}
use tenta_cron.Store.Sql.{Env, World}
use tenta_cron.Store.Invariant.{IsValid, history}
use tenta_cron.Store.Invariant.Keeps.{Keeps, keeps_rules}
use tenta_cron.Store.Invariant.Methods.{
  set_resolved-Keeps, mark_awaiting_target-Keeps, mark_completed-Keeps, mark_failed-Keeps,
  mark_cancelled-Keeps, requeue-Keeps,
}
use tenta_cron.Store.Invariant.Create.{create_job_once-Keeps}
use tenta_cron.Store.Invariant.Claim.{claim_one-Keeps}
use tenta_cron.Store.Invariant.Recovery.{requeue_one-Keeps, reschedule_poll-Keeps}
use tenta_cron.Store.Invariant.Retention.{delete_job_chunk-Keeps}
use tenta_cron.Store.Invariant.Deliveries.{record_attempt-Keeps}
use tenta_cron.Runs.{
  Call, accept, claim, resolve, park, complete, fail, cancel, retry_later, put_back, reschedule,
  delete, attempted, perform, run, empty,
}

perform-Keeps : (c : Call) → Keeps (perform c)
unfolding perform
perform-Keeps (accept s queue_cap) = search (keeps_rules, create_job_once-Keeps)
perform-Keeps (claim c now policy) = search (keeps_rules, claim_one-Keeps)
perform-Keeps (resolve id payload detail) = set_resolved-Keeps id payload detail
perform-Keeps (park id target_job code body first_poll deadline) =
    mark_awaiting_target-Keeps _ _ _ _ _ _
perform-Keeps (complete id code body file detail) = mark_completed-Keeps _ _ _ _ _
perform-Keeps (fail id code message) = mark_failed-Keeps _ _ _
perform-Keeps (cancel id detail) = mark_cancelled-Keeps _ _
perform-Keeps (retry_later id next detail) = requeue-Keeps _ _ _
perform-Keeps (put_back id detail) = requeue_one-Keeps _ _
perform-Keeps (reschedule id at) = search (keeps_rules, reschedule_poll-Keeps)
perform-Keeps (delete ids) = delete_job_chunk-Keeps ids
perform-Keeps (attempted id prev code last_error success next) = record_attempt-Keeps _ _ _ _ _ _

-- A run from valid tables ends in valid tables.
pub run-IsValid : (cs : List (Call × Env)) (w : World) → IsValid w.db → IsValid (run cs w).db
unfolding run
run-IsValid [] w v = v
run-IsValid ((c, e) ∷ cs) w v = run-IsValid cs _ ((perform-Keeps c).keeps e w v)

empty-IsValid : IsValid empty.db
unfolding history select_where find_by count_where
empty-IsValid = record { at = λ k. (refl, refl); unique = tt; once = λ client key. omega arith }

-- Whatever transactions on jobs and deliveries an instance runs from empty tables, in whatever order
-- and with whatever faults, the tables are valid: columns fit states, each history is a path of the state diagram
-- that ends in the job's state, ids and idempotency keys are unique, and a job has a delivery
-- exactly when it is terminal and asked for a callback.
pub reachable-IsValid : (cs : List (Call × Env)) → IsValid (run cs empty).db
reachable-IsValid cs = run-IsValid cs empty empty-IsValid
