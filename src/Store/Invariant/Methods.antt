-- ===== src/Store/Invariant/Methods.antt =====
-- Each transition of internal/store/jobs.go keeps the invariant of the tables.
use tenta_cron.Prelude.{ℕ, String, refl, Option, none, some, arith}
use tenta_cron.Store.Model.{
  received, resolving, forwarding, awaiting_target, completed, failed, cancelled, Detail, accepted,
  failure, ts,
}
use tenta_cron.Store.Transition.{
  from_guard, set_resolved, mark_awaiting_target, complete_row, mark_completed, fail_row,
  mark_failed, cancel_guard, cancel_row, mark_cancelled, requeue, await_row, requeue_row,
}
use tenta_cron.Store.Invariant.Keeps.{Keeps}
use tenta_cron.Store.Sql.Holds.{Holds-time_now}
use tenta_cron.Store.Invariant.Transit.{IsSound, transition_guarded-Keeps}

pub set_resolved-IsSound :
    (payload : String)
    → IsSound
        (from_guard (some resolving))
        forwarding
        (λ j. record j { resolved_payload = some payload })
set_resolved-IsSound payload = record {
  shape = record {
    same_id = λ j. refl;
    same_state = λ j. refl;
    same_client = λ j. refl;
    same_key = λ j. refl;
    same_url = λ j. refl;
  };
  edge = λ s t g. ground arith;
  row = λ now j t g v. ground arith;
}

-- Storing a resolved payload keeps the tables valid.
pub set_resolved-Keeps :
    (id payload : String) (detail : Detail) → Keeps (set_resolved id payload detail)
unfolding set_resolved
set_resolved-Keeps id payload detail =
    transition_guarded-Keeps id _ forwarding detail _ (set_resolved-IsSound payload)

complete-IsSound :
    (status : ℕ) (body : Option String) (file : Option (String × String)) (at : ℕ)
    → IsSound (from_guard none) completed (complete_row status body file at)
complete-IsSound status body file at = record {
  shape = record {
    same_id = λ j. refl;
    same_state = λ j. refl;
    same_client = λ j. refl;
    same_key = λ j. refl;
    same_url = λ j. refl;
  };
  edge = λ s t g. ground arith;
  row = λ now j t g v. ground arith;
}

-- Completing a job keeps the tables valid.
pub mark_completed-Keeps :
    (id : String) (status : ℕ) (body : Option String) (file : Option (String × String))
    (detail : Detail)
    → Keeps (mark_completed id status body file detail)
unfolding mark_completed
mark_completed-Keeps id status body file detail =
    Holds-time_now _ λ now.
      transition_guarded-Keeps id _ completed detail _ (complete-IsSound status body file now)

fail-IsSound :
    (code : String) (message : Detail) (at : ℕ)
    → IsSound (from_guard none) failed (fail_row code message at)
fail-IsSound code message at = record {
  shape = record {
    same_id = λ j. refl;
    same_state = λ j. refl;
    same_client = λ j. refl;
    same_key = λ j. refl;
    same_url = λ j. refl;
  };
  edge = λ s t g. ground arith;
  row = λ now j t g v. ground arith;
}

-- Failing a job keeps the tables valid.
pub mark_failed-Keeps : (id code : String) (message : Detail) → Keeps (mark_failed id code message)
unfolding mark_failed
mark_failed-Keeps id code message = Holds-time_now _ λ now.
    transition_guarded-Keeps id _ failed (failure code message) _ (fail-IsSound code message now)

cancel-IsSound : (at : ℕ) → IsSound (cancel_guard) cancelled (cancel_row at)
cancel-IsSound at = record {
  shape = record {
    same_id = λ j. refl;
    same_state = λ j. refl;
    same_client = λ j. refl;
    same_key = λ j. refl;
    same_url = λ j. refl;
  };
  edge = λ s t g. ground arith;
  row = λ now j t g v. ground arith;
}

-- Cancelling a job keeps the tables valid.
pub mark_cancelled-Keeps : (id : String) (detail : Detail) → Keeps (mark_cancelled id detail)
unfolding mark_cancelled
mark_cancelled-Keeps id detail =
    Holds-time_now _ λ now. transition_guarded-Keeps id _ cancelled detail _ (cancel-IsSound now)

await-IsSound :
    (target_job : String) (status : ℕ) (body : String) (first_poll deadline : ℕ)
    → IsSound
        (from_guard (some forwarding))
        awaiting_target
        (await_row target_job status body first_poll deadline)
await-IsSound target_job status body first_poll deadline = record {
  shape = record {
    same_id = λ j. refl;
    same_state = λ j. refl;
    same_client = λ j. refl;
    same_key = λ j. refl;
    same_url = λ j. refl;
  };
  edge = λ s t g. ground arith;
  row = λ now j t g v. ground arith;
}

-- Parking a job for polling keeps the tables valid.
pub mark_awaiting_target-Keeps :
    (id target_job : String) (status : ℕ) (body : String) (first_poll deadline : ℕ)
    → Keeps (mark_awaiting_target id target_job status body first_poll deadline)
unfolding mark_awaiting_target
mark_awaiting_target-Keeps id target_job status body first_poll deadline =
    transition_guarded-Keeps id _ awaiting_target (accepted status target_job) _
      (await-IsSound target_job status body first_poll deadline)

pub requeue-IsSound : (next : Option ℕ) → IsSound (from_guard none) received (requeue_row next)
requeue-IsSound next = record {
  shape = record {
    same_id = λ j. refl;
    same_state = λ j. refl;
    same_client = λ j. refl;
    same_key = λ j. refl;
    same_url = λ j. refl;
  };
  edge = λ s t g. ground arith;
  row = λ now j t g v. ground arith;
}

-- Putting a job back in the queue keeps the tables valid.
pub requeue-Keeps : (id : String) (next : ℕ) (detail : Detail) → Keeps (requeue id next detail)
unfolding requeue
requeue-Keeps id next detail =
    transition_guarded-Keeps id _ received detail _ (requeue-IsSound (some (ts next)))
