-- ===== src/Store/Model.antt =====
-- internal/store: jobs.go (Job, states, errors), events.go, deliveries.go and the tables of
-- migrations/*.sql. A nullable column is an `Option`; the empty text that stands for NULL in the Go
-- structs is `none`.
use tenta_cron.Prelude.{
  ℕ, ◌*◌, ◌/◌, String, Bool, true, false, Option, List, ◌==◌, ◌≡◌, ◌||◌, arith, ℤ,
}

pub data State : Type 0 where
  received resolving forwarding awaiting_target completed failed cancelled : State

pub State-discrete : Discrete State
State-discrete = hlevel

abbrev pub is_terminal : State → Bool
is_terminal received = false
is_terminal resolving = false
is_terminal forwarding = false
is_terminal awaiting_target = false
is_terminal completed = true
is_terminal failed = true
is_terminal cancelled = true

abbrev state_code : State → ℕ
state_code received = 0
state_code resolving = 1
state_code forwarding = 2
state_code awaiting_target = 3
state_code completed = 4
state_code failed = 5
state_code cancelled = 6

-- `a = b` on the text of a state.
abbrev pub same_state : State → State → Bool
same_state a b = state_code a == state_code b

-- `state IN ('resolving', 'forwarding')`: a worker holds the job.
abbrev pub is_held : State → Bool
is_held s = same_state s resolving || same_state s forwarding

-- The errors that callers tell apart; `key_taken` is the
-- violation of the index on idempotency keys, and `db_error` any other failure of the database.
pub data Error : Type 0 where
  not_found terminal_state wrong_state idempotency_conflict queue_full not_cancellable : Error
  not_settled schedule_limit key_taken db_error : Error

-- `ts`: an instant in nanoseconds is stored as a text of fixed width with milliseconds, which
-- compares as the number of milliseconds does.
abbrev pub ts : ℕ → ℕ
ts t = t / 1000000

-- `parseTS`
abbrev pub parse_ts : ℕ → ℕ
parse_ts s = s * 1000000

pub data CacheMode : Type 0 where
  cache_default cache_use cache_bypass cache_refresh : CacheMode

-- The details that transitions record, with the parts that their formats print.
pub data Detail : Type 0 where
  text : String → Detail
  failure : String → Detail → Detail
  interrupted : ℕ → Detail
  accepted : ℕ → String → Detail
  resolved : ℕ → ℕ → Detail
  retrying : ℕ → ℕ → String → ℕ → Detail
  responded : ℕ → Detail
  finished : String → String → Detail
  gave_up : ℕ → String → Detail
  unconfigured : String → Detail
  not_polled : String → Detail
  no_answer : String → ℕ → Detail
  job_failed : String → String → Detail
  poll_expired : String → Detail
  poll_unreachable : String → String → Detail

-- What a caller of `CreateJob` fills in; times in nanoseconds.
pub record Submission : Type 0 where
  pub id : String
  pub client : String
  pub idempotency_key : Option String
  pub target : String
  pub max_attempts : ℕ
  pub not_before : Option ℕ
  pub callback_url : Option String
  pub priority : ℤ
  pub options : CacheMode
  pub payload : String

-- A row of `jobs`; `seq` is its rowid.
pub record Job : Type 0 where
  pub seq : ℕ
  pub id : String
  pub client : String
  pub idempotency_key : Option String
  pub target : String
  pub state : State
  pub attempts : ℕ
  pub max_attempts : ℕ
  pub next_attempt_at : Option ℕ
  pub not_before : Option ℕ
  pub callback_url : Option String
  pub priority : ℤ
  pub options : CacheMode
  pub payload : String
  pub resolved_payload : Option String
  pub target_job_id : Option String
  pub poll_deadline : Option ℕ
  pub target_status : Option ℕ
  pub target_response : Option String
  pub result_path : Option String
  pub result_content_type : Option String
  pub error_code : Option String
  pub error_message : Option Detail
  pub created_at : ℕ
  pub updated_at : ℕ
  pub completed_at : Option ℕ

-- A row of `job_events`.
pub record Event : Type 0 where
  pub job_id : String
  pub from_state : Option State
  pub to_state : State
  pub detail : Detail
  pub created_at : ℕ

-- A row of `callback_deliveries`; `event` is the terminal state that `EventFor` spells.
pub record Delivery : Type 0 where
  pub job_id : String
  pub url : String
  pub event : State
  pub attempts : ℕ
  pub next_attempt_at : Option ℕ
  pub delivered_at : Option ℕ
  pub last_status : Option ℕ
  pub last_error : Option String

-- A row of `client_claims`.
pub record Claim : Type 0 where
  pub client : String
  pub last_claimed_at : ℕ

-- A row of `series_cache`.
pub record Series : Type 0 where
  pub param_hash : String
  pub resolvent_type : String
  pub response : String
  pub created_at : ℕ
  pub expires_at : ℕ

-- A row of `schedules`; `enabled` is written by nothing but its default.
pub record Schedule : Type 0 where
  pub id : String
  pub client : String
  pub target : String
  pub payload : String
  pub cron : String
  pub timezone : String
  pub priority : ℤ
  pub options : CacheMode
  pub idempotency_key : Option String
  pub enabled : Bool
  pub next_run_at : Option ℕ
  pub last_run_at : Option ℕ
  pub last_job_id : Option String
  pub created_at : ℕ
  pub updated_at : ℕ

-- The tables.
pub record Database : Type 0 where
  pub jobs : List Job
  pub events : List Event
  pub deliveries : List Delivery
  pub claims : List Claim
  pub series : List Series
  pub schedules : List Schedule

pub same_state→≡ : (a b : State) → same_state a b ≡ true → a ≡ b
same_state→≡ a b h = ground arith
