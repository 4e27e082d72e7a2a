-- ===== src/Callback/Deliverer.antt =====
-- internal/callback/deliverer.go: `classify`, `backoff`, `refuse`, `attempt` and `deliverDue`; allow.go `Check`. What the receiver
-- answers, the jitter and the parsed URL are parameters.
pub mod Verdicts
pub mod Settled
pub mod Keeps
use tenta_cron.Prelude.{
  ℕ, zero, suc, ◌+◌, String, ◌==◌, Bool, true, false, ◌&&◌, not, Option, none, some, List, [], ◌∷◌,
  if◌then◌else◌, leb, ltb, is_some,
}
use tenta_cron.Store.Model.{Delivery, Job}
use tenta_cron.Store.Sql.{M, pure, recover, time_now, ◌>>=◌}
use tenta_cron.Store.Create.{get_job}
use tenta_cron.Store.Deliveries.{due_deliveries, record_attempt}
use tenta_cron.Worker.Backoff.{backoff}

pub record CallbackConfig : Type 0 where
  pub max_attempts : ℕ
  pub backoff_base : ℕ
  pub backoff_max : ℕ
  -- `float64(b) * (0.8 + 0.4*rand.Float64())`
  pub jitter : ℕ → ℕ

pub data Verdict : Type 0 where
  delivered failed : Verdict
  retry : ℕ → Verdict
  -- a shift by a negative count
  panicked : Verdict

-- What `post` returns: a status, 0 for a transport failure, and its error.
pub record Answer : Type 0 where
  pub status : ℕ
  pub error : Option String

-- A 3xx or 4xx that no retry changes.
abbrev pub is_final : ℕ → Bool
is_final status = leb 300 status && ltb status 500 && not (status == 408) && not (status == 429)

abbrev pub delayed : (ℕ → ℕ) → ℕ → Option ℕ → Verdict
delayed jitter now none = panicked
delayed jitter now (some b) = retry (now + jitter b)

-- `classify`, with the count of the attempt just made.
unfoldable pub classify : CallbackConfig → ℕ → ℕ → Answer → Verdict
classify cfg now attempts a =
    if not (is_some a.error)
    then delivered
    else (if is_final a.status
        then failed
        else (if leb cfg.max_attempts attempts
            then failed
            else delayed cfg.jitter now (backoff cfg.backoff_base cfg.backoff_max attempts)))

abbrev pub is_delivered : Verdict → Bool
is_delivered delivered = true
is_delivered _ = false

abbrev pub next_of : Verdict → Option ℕ
next_of (retry at) = some at
next_of _ = none

abbrev pub status_of : ℕ → Option ℕ
status_of zero = none
status_of (suc n) = some (suc n)

-- `RecordAttempt` with its error logged; the verdict is what the metrics count.
abbrev pub settle : Delivery → Answer → Verdict → M (Option Verdict)
settle v a panicked = pure none
settle v a verdict =
    recover
      (record_attempt v.job_id v.attempts (status_of a.status) a.error (is_delivered verdict)
        (next_of verdict))
      (λ x. pure none) (λ _. pure (some verdict))

-- `refuse`: an attempt that the allow-list did not let out.
unfoldable pub refuse : CallbackConfig → Delivery → String → M (Option Verdict)
refuse cfg v reason = do
  now ← time_now
  settle v (record { status = 0; error = some reason })
      (classify cfg now (v.attempts + 1) (record { status = 0; error = some reason }))

-- `attempt`; `post` is what the receiver answers to the job's document.
unfoldable pub attempt : CallbackConfig → (Delivery → Job → Answer) → Delivery → M (Option Verdict)
attempt cfg post v =
    recover (get_job v.job_id) (λ x. pure none)
      (λ j. do now ← time_now; settle v (post v j) (classify cfg now (v.attempts + 1) (post v j)))

abbrev pub due_batch : ℕ
due_batch = 50

abbrev pub deliver_one :
    CallbackConfig → (Delivery → Job → Answer) → Delivery → Option String → M (Option Verdict)
deliver_one cfg post v none = attempt cfg post v
deliver_one cfg post v (some reason) = refuse cfg v reason

-- The loop of `deliverDue`; `check` is the reason that the allow-list refuses a URL.
unfoldable pub deliver_each :
    CallbackConfig
    → (String → Option String)
    → (Delivery → Job → Answer)
    → List Delivery
    → M (Unit {0})
deliver_each cfg check post [] = pure tt
deliver_each cfg check post (v ∷ vs) = do
  verdict ← deliver_one cfg post v (check v.url)
  deliver_each cfg check post vs

-- `deliverDue`
unfoldable pub deliver_due :
    CallbackConfig → (String → Option String) → (Delivery → Job → Answer) → M (Unit {0})
unfolding deliver_each
deliver_due cfg check post = do
  now ← time_now
  recover (due_deliveries now due_batch) (λ x. pure tt) (deliver_each cfg check post)
