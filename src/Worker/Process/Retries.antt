-- ===== src/Worker/Process/Retries.antt =====
-- When a failed attempt is tried again, and when it ends the job (internal/worker/process.go,
-- `retryOrFail`).
use tenta_cron.Prelude.{ℕ, ◌+◌, ◌≤◌, ◌<◌, String, ◌≡◌, ◌⊎◌, false, some}
use tenta_cron.Prelude.Tables.{find_by}
use tenta_cron.Store.Model.{Job, is_terminal, received, failed, Database, ts}
use tenta_cron.Store.Sql.{Env}
use tenta_cron.Store.Invariant.{IsValid}
use tenta_cron.Worker.Process.{UpstreamError, RetryConfig}

-- Nothing keeps the store from a transition of the job: valid tables, a live row and no faults.
pub record Ready (id : String) (e : Env) (d : Database) : Type 0 where
  pub valid : IsValid d
  pub calm : (n : ℕ) → e.fails n ≡ false
  pub row : Job
  pub found : find_by (λ j. j.id) id d.jobs ≡ some row
  pub live : is_terminal row.state ≡ false

-- The row under an id after a transition, or the tables as they were, where something kept the store
-- from it.
abbrev Moved : String → Env → (Job → Type 0) → Database → Database → Type 0
Moved id e P d d' =
    ((d' ≡ d) × (Ready id e d → ⊥)) ⊎ ((j : Job) × (find_by (λ j. j.id) id d'.jobs ≡ some j) × P j)

-- The job has failed with the code.
abbrev pub HasFailed : String → Job → Type 0
HasFailed code j = (j.state ≡ failed) × (j.error_code ≡ some code)

-- The job waits to be tried again, from a jittered backoff after some moment on.
abbrev pub Waits : RetryConfig → Job → Type 0
Waits cfg j =
    (j.state ≡ received)
    × ((t b : ℕ) × (j.next_attempt_at ≡ some (ts (t + cfg.jitter b)))
        × (0 < b)
        × (b ≤ cfg.max_backoff))

-- No retry can help: the call says so, and it was not cut short by a context.
abbrev pub IsPermanent : UpstreamError → Type 0
IsPermanent x = (x.transient ≡ false) × (x.cancelled ≡ false) × (x.deadline ≡ false)

-- What `retryOrFail` leaves: the tables as they were, where something kept the store from it; a failed job,
-- where the error is permanent or the attempts are spent; or one that waits, where neither is so.
pub data RetriedOrFailed (cfg : RetryConfig) (job : Job) (code : String) (x : UpstreamError)
    (e : Env) (d d' : Database) : Type 0 where
  unmoved : d' ≡ d → (Ready job.id e d → ⊥) → RetriedOrFailed cfg job code x e d d'
  final :
      (j : Job)
      → find_by (λ j. j.id) job.id d'.jobs ≡ some j
      → IsPermanent x
      → HasFailed code j
      → RetriedOrFailed cfg job code x e d d'
  spent :
      (j : Job)
      → find_by (λ j. j.id) job.id d'.jobs ≡ some j
      → (IsPermanent x → ⊥)
      → job.max_attempts ≤ job.attempts
      → HasFailed "max_attempts_exceeded" j
      → RetriedOrFailed cfg job code x e d d'
  again :
      (j : Job)
      → find_by (λ j. j.id) job.id d'.jobs ≡ some j
      → (IsPermanent x → ⊥)
      → job.attempts < job.max_attempts
      → Waits cfg j
      → RetriedOrFailed cfg job code x e d d'
