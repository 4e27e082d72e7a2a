-- ===== src/Api.antt =====
-- internal/api/handlers.go and auth.go: which job a caller reaches, and `handleCancel`. What a handler
-- does besides the tables is in its answer: the waiters it wakes and the target it tells.
pub mod Scope
use tenta_cron.Prelude.{
  ℕ, String, str_eq, Bool, true, false, not, ◌&&◌, Option, none, some, List, if◌then◌else◌, is_some,
}
use tenta_cron.Store.Model.{Job, State, awaiting_target, same_state, Error, Detail}
use tenta_cron.Store.Model
use tenta_cron.Store.Sql.{M, pure, recover}
use tenta_cron.Store.Create.{get_job}
use tenta_cron.Store.Transition.{mark_cancelled}
use tenta_cron.Access.{ApiKey, Identity, authenticate, may_read}

-- The answers of the handler: their status codes are 401, 404, 409, 409, 500 and 200.
pub data Answer : Type 0 where
  unauthorized no_such_request internal_error : Answer
  being_processed already_finished : State → Answer
  shown : Job → Answer

-- An answer, whether the waiters of the job were woken, and the target job that is to be cancelled.
pub record Response : Type 0 where
  pub answer : Answer
  pub is_notified : Bool
  pub target_cancel : Option String

abbrev pub just : Answer → Response
just a = record { answer = a; is_notified = false; target_cancel = none }

abbrev pub load_error : Error → Answer
load_error Model.not_found = no_such_request
load_error x = internal_error

-- `mayRead` on the loaded job.
abbrev pub readable : Identity → Job → M Response → (Job → M Response) → M Response
readable caller job refused next = if may_read caller job then next job else refused

-- `jobForCaller` over `jobFromPath`, and what the handler does with the job.
unfoldable pub job_for_caller : Identity → String → (Job → M Response) → M Response
job_for_caller caller id next =
    recover (get_job id) (λ x. pure (just (load_error x)))
      (λ job. readable caller job (pure (just no_such_request)) next)

abbrev pub cancel_error : State → Error → Answer
cancel_error s Model.not_cancellable = being_processed s
cancel_error s Model.terminal_state = already_finished s
cancel_error s x = internal_error

-- The id of the target's job, where it is there and not empty.
abbrev pub or_missing : Option String → Option String
or_missing none = none
or_missing (some id) = if str_eq id "" then none else some id

-- `notifyTargetCancel`, on the job as it was read: the target's job, where there is one and the
-- target offers to cancel.
abbrev pub target_cancel_of : (String → Bool) → Job → Option String
target_cancel_of offers_cancel job =
    if same_state job.state awaiting_target && offers_cancel job.target
    then or_missing job.target_job_id
    else none

abbrev pub cancelled_response : (String → Bool) → Job → Answer → Response
cancelled_response offers_cancel job a = record {
  answer = a;
  is_notified = true;
  target_cancel = target_cancel_of offers_cancel job;
}

-- `handleCancel` from the loaded job on.
unfoldable pub cancel_loaded : (String → Bool) → Detail → Job → M Response
cancel_loaded offers_cancel detail job =
    recover (mark_cancelled job.id detail) (λ x. pure (just (cancel_error job.state x)))
      (λ done.
        recover (get_job job.id) (λ x. pure (cancelled_response offers_cancel job internal_error))
          (λ updated. pure (cancelled_response offers_cancel job (shown updated))))

abbrev pub cancel_as : (String → Bool) → (String → Detail) → String → Option Identity → M Response
cancel_as offers_cancel detail id none = pure (just unauthorized)
cancel_as offers_cancel detail id (some caller) =
    job_for_caller caller id (cancel_loaded offers_cancel (detail caller.name))

-- `handleCancel`, for the presented key and the configured ones.
unfoldable pub handle_cancel :
    (String → Bool) → (String → Detail) → List ApiKey → String → String → M Response
handle_cancel offers_cancel detail keys presented id =
    cancel_as offers_cancel detail id (authenticate presented keys)
