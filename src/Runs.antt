-- ===== src/Runs.antt =====
-- Any sequence of the store's transactions on jobs and deliveries, from empty tables: what the workers, the sweeps, the
-- deliverer and the API of one instance do to the database, in whatever order they come and
-- whichever statements fail (internal/store, its methods over one SQLite file).
pub mod Validity
pub mod Handlers
pub mod Finality
pub mod Restart
use tenta_cron.Prelude.{ℕ, String, Bool, Option, none, List, [], ◌∷◌}
use tenta_cron.Store.Model.{received, Detail, Submission, Job, Database}
use tenta_cron.Store.Sql.{Env, World, M, pure, ◌>>=◌}
use tenta_cron.Store.Create.{create_job_once}
use tenta_cron.Store.Transition.{
  set_resolved, mark_awaiting_target, mark_completed, mark_failed, mark_cancelled, requeue,
  transition, requeue_row,
}
use tenta_cron.Store.Claim.{claim_received, claim_poll_tick, claim_one, ClaimPolicy}
use tenta_cron.Store.Recovery.{reschedule_poll}
use tenta_cron.Store.Retention.{delete_job_chunk}
use tenta_cron.Store.Deliveries.{record_attempt}

-- A transaction with its arguments. A candidate to `claim` may be as stale as it likes, and the
-- ids to `put_back` or to delete may be any.
pub data Call : Type 0 where
  accept : Submission → ℕ → Call
  claim : Job → ℕ → ClaimPolicy → Call
  resolve : String → String → Detail → Call
  park : String → String → ℕ → String → ℕ → ℕ → Call
  complete : String → ℕ → Option String → Option (String × String) → Detail → Call
  fail : String → String → Detail → Call
  cancel : String → Detail → Call
  retry_later : String → ℕ → Detail → Call
  put_back : String → Detail → Call
  reschedule : String → ℕ → Call
  delete : List String → Call
  attempted : String → ℕ → Option ℕ → Option String → Bool → Option ℕ → Call

abbrev pub forget : {A : Type 0} → M A → M (Unit {0})
forget m = m >>= λ _. pure tt

unfoldable pub perform : Call → M (Unit {0})
perform (accept s queue_cap) = forget (create_job_once s queue_cap)
perform (claim c now policy) = forget (claim_one c now policy)
perform (resolve id payload detail) = set_resolved id payload detail
perform (park id target_job code body first_poll deadline) =
    mark_awaiting_target id target_job code body first_poll deadline
perform (complete id code body file detail) = mark_completed id code body file detail
perform (fail id code message) = mark_failed id code message
perform (cancel id detail) = mark_cancelled id detail
perform (retry_later id next detail) = requeue id next detail
perform (put_back id detail) = transition id none received detail (requeue_row none)
perform (reschedule id at) = forget (reschedule_poll id at)
perform (delete ids) = delete_job_chunk ids
perform (attempted id prev code last_error success next) =
    record_attempt id prev code last_error success next

-- A run: each transaction under faults and clocks of its own; an error ends its transaction only.
unfoldable pub run : List (Call × Env) → World → World
unfolding perform
run [] w = w
run ((c, e) ∷ cs) w = run cs (perform c e w).1

abbrev pub empty : World
empty = record {
  db = record { jobs = []; events = []; deliveries = []; claims = []; series = []; schedules = [] };
  step = 0;
}
