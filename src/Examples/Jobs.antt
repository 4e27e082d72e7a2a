-- ===== src/Examples/Jobs.antt =====
-- The store's transactions and their theorems at concrete inputs.
use tenta_cron.Store.Sql.{World}
use tenta_cron.Prelude.{
  ◌≤◌, ◌≡◌, refl, true, none, some, find_where, List, [], ◌∷◌, arith, count_where,
}
use tenta_cron.Prelude.Tables.{find_by, update_by}
use tenta_cron.Store.Model.{cancelled, Detail}
use tenta_cron.Store.Sql.{ok, Env, recover, ◌>>=◌}
use tenta_cron.Store.Sql.Hoare.{Post}
use tenta_cron.Store.Transition.{transition_guarded, append_event, cancel_guard, cancel_row}
use tenta_cron.Store.Transition.Outcome.{Committed, after, transition_guarded-Post}
use tenta_cron.Store.Transition.Total.{transition_guarded_exact}
use tenta_cron.Store.Create.{create_job, create_job_once, insert_and_commit, insert_job}
use tenta_cron.Store.Create.Outcome.{Accepted, Same, create_job-Post}
use tenta_cron.Store.Claim.{record_claim, claim_received, claim_poll_tick, is_held_by}
use tenta_cron.Store.Claim.Outcome.{Claimed, claim_received-Post}
use tenta_cron.Store.Claim.Ticks.{WaitsUntil, claim_poll_tick-once}
use tenta_cron.Prelude.{◌≢◌}
use tenta_cron.Store.Model.{awaiting_target}
use tenta_cron.Store.Claim.Ceiling.{claim_received-le_ceiling}
use tenta_cron.Store.Invariant.{IsValid}
use tenta_cron.Runs.{Call, claim, complete, cancel, delete, perform, run, empty}
use tenta_cron.Runs.Validity.{reachable-IsValid}
use tenta_cron.Runs.Finality.{terminal-stays}
use tenta_cron.Examples.{
  calm_env, faulty_env, order, policy, row, cancelled_run, queued, ended, ended_row, queued-IsValid,
  queued_row, queued_alone, ended_is_over,
}

-- A ceiling of one lets the first job through.
claims_one : (claim_received "job-1" "alice" 1 5000000000 calm_env queued).0 ≡ ok true
unfolding run perform create_job_once ◌>>=◌ count_where insert_and_commit recover insert_job
    append_event find_where find_by claim_received record_claim update_by
claims_one = refl

reachable-IsValid_example : IsValid (run cancelled_run empty).db
reachable-IsValid_example = reachable-IsValid cancelled_run

-- A late worker, a stale candidate and a second cancellation.
abbrev late_run : List (Call × Env)
late_run =
    (complete "job-1" 200 none none (Detail.text "late"), calm_env)
    ∷ (claim row 5000000000 policy, calm_env)
    ∷ (cancel "job-1" (Detail.text "again"), faulty_env 3)
    ∷ (delete ("job-2" ∷ []), calm_env)
    ∷ []

terminal-stays_example : find_by (λ j. j.id) "job-1" (run late_run ended).db.jobs ≡ some ended_row
terminal-stays_example =
    terminal-stays "job-1" ended_row late_run ended refl ended_is_over
      (refl, (refl, (refl, (refl, tt))))

transition_guarded-Post_example :
    Post
      (λ _ d.
        Committed "job-1" cancel_guard cancelled
          (Detail.text "bye")
          5000000000
          (cancel_row 5000000000)
          (find_by (λ j. j.id) "job-1" queued.db.jobs)
          queued.db
          d)
      (λ x d. d ≡ queued.db)
      (transition_guarded "job-1" cancel_guard cancelled
        (Detail.text "bye")
        (cancel_row 5000000000)
        (faulty_env 9)
        queued)
transition_guarded-Post_example =
    transition_guarded-Post "job-1" cancel_guard cancelled (Detail.text "bye")
      (cancel_row 5000000000) (λ j. refl) (faulty_env 9) queued

transition_guarded_exact_example :
    ((transition_guarded "job-1" cancel_guard cancelled
        (Detail.text "bye")
        (cancel_row 5000000000)
        calm_env
        queued).0
      ≡ ok tt)
    × ((transition_guarded "job-1" cancel_guard cancelled
          (Detail.text "bye")
          (cancel_row 5000000000)
          calm_env
          queued).1.db
        ≡ after "job-1" cancelled
            (Detail.text "bye")
            5000000000
            (cancel_row 5000000000)
            row
            queued.db)
transition_guarded_exact_example =
    transition_guarded_exact "job-1" cancel_guard cancelled (Detail.text "bye")
      (cancel_row 5000000000) (λ j. refl) calm_env queued row queued-IsValid (λ n. refl) queued_row
      refl refl

create_job-Post_example :
    Post (Accepted order 10 empty.db) (Same empty.db) (create_job order 10 calm_env empty)
create_job-Post_example = create_job-Post order 10 calm_env empty

claim_received-Post_example :
    Post
      (Claimed "job-1" "alice" 1 5000000000 (find_by (λ j. j.id) "job-1" queued.db.jobs) queued.db)
      (Same queued.db)
      (claim_received "job-1" "alice" 1 5000000000 calm_env queued)
claim_received-Post_example = claim_received-Post "job-1" "alice" 1 5000000000 calm_env queued

claim_received-le_ceiling_example :
    count_where
      (is_held_by "alice")
      (claim_received "job-1" "alice" 1 5000000000 calm_env queued).1.db.jobs
    ≤ 1
claim_received-le_ceiling_example =
    claim_received-le_ceiling "job-1" "alice" 1 5000000000 calm_env queued queued_alone
      (omega arith) claims_one

-- The job was parked, and is due at five seconds.
abbrev parked : World
parked = record empty {
  db = record (empty.db) {
    jobs = record row { state = awaiting_target; next_attempt_at = some 5000 } ∷ [];
  };
}

ticks_first :
    (claim_poll_tick "job-1" (some 5000) 65000000000 5000000000 calm_env parked).0 ≡ ok true
unfolding claim_poll_tick ◌>>=◌ find_by update_by
ticks_first = refl

claim_poll_tick-once_example :
    let w1 = (claim_poll_tick "job-1" (some 5000) 65000000000 5000000000 calm_env parked).1 in
    WaitsUntil "job-1" 65000 w1.db
    × ((claim_poll_tick "job-1" (some 5000) 66000000000 6000000000 calm_env w1).0 ≢ ok true)
claim_poll_tick-once_example =
    claim_poll_tick-once "job-1" 5000 65000000000 5000000000 66000000000 6000000000 calm_env
      calm_env parked (omega arith) ticks_first
