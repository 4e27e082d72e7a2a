-- ===== src/Config.antt =====
-- internal/config/validate.go: what `Validate` reports on the worker section, on the API keys
-- and on the deadlines of the targets.
-- The texts of the problems are left out; each keeps the field, the index or the name it is about.
pub mod Accepted
pub mod Budget
pub mod Keys
use tenta_cron.Prelude.{
  ℕ, suc, String, str_eq, Bool, true, false, not, ◌&&◌, ◌||◌, Option, none, some, List, [], ◌∷◌,
  ◌++◌, ℤ, pos, negsuc, int_ltb, if◌then◌else◌,
}
use tenta_cron.Access.{ApiKey}

pub data Problem : Type 0 where
  not_positive : String → Problem
  base_above_max : Problem
  no_keys : Problem
  no_name no_key same_key unknown_role : ℕ → Problem
  duplicate_name : String → Problem
  deadline_too_short : Problem
  negative_limit : ℕ → String → Problem
  priority_out_of_range : ℕ → Problem

-- `if fails { v.fail(...) }`
abbrev pub report : Bool → Problem → List Problem
report fails p = if fails then p ∷ [] else []

abbrev pub is_negative : ℤ → Bool
is_negative n = int_ltb n (pos 0)

abbrev pub is_positive : ℤ → Bool
is_positive n = int_ltb (pos 0) n

-- `positiveInt` and `positiveDur`
abbrev pub positive : String → ℤ → List Problem
positive field n = report (not (is_positive n)) (not_positive field)

-- The problems of several checks, in their order.
abbrev pub joined : List (List Problem) → List Problem
joined [] = []
joined (ps ∷ pss) = ps ++ joined pss

-- `config.Worker`
pub record WorkerConfig : Type 0 where
  pub count : ℤ
  pub resolvent_concurrency : ℤ
  pub poll_interval : ℤ
  pub max_attempts : ℤ
  pub backoff_base : ℤ
  pub backoff_max : ℤ
  pub job_timeout : ℤ
  pub scheduler_interval : ℤ

-- The checks of the method `worker`, in its order.
abbrev pub worker_checks : WorkerConfig → List (List Problem)
worker_checks w =
    positive "worker.count" w.count
    ∷ positive "worker.resolvent_concurrency" w.resolvent_concurrency
    ∷ positive "worker.max_attempts" w.max_attempts
    ∷ positive "worker.poll_interval" w.poll_interval
    ∷ positive "worker.backoff_base" w.backoff_base
    ∷ positive "worker.backoff_max" w.backoff_max
    ∷ positive "worker.job_timeout" w.job_timeout
    ∷ positive "worker.scheduler_interval" w.scheduler_interval
    ∷ report
        (is_positive w.backoff_base
          && (is_positive w.backoff_max && int_ltb w.backoff_max w.backoff_base))
        base_above_max
    ∷ []

-- The method `worker` of the validator.
unfoldable pub worker : WorkerConfig → List Problem
worker w = joined (worker_checks w)

-- `config.APIKey`: what the check of a caller reads, and the limits.
pub record ClientKey : Type 0 where
  pub opening : ApiKey
  pub max_concurrent : ℤ
  pub max_queued : ℤ
  pub max_schedules : Option ℤ
  pub max_priority : Option ℤ

abbrev pub negative_option : Option ℤ → Bool
negative_option none = false
negative_option (some n) = is_negative n

-- Outside `MinPriority` to `MaxPriority`.
abbrev pub out_of_range : Option ℤ → Bool
out_of_range none = false
out_of_range (some n) = int_ltb n (negsuc 9) || int_ltb (pos 10) n

-- `seen[name]`
unfoldable pub has_seen : List String → String → Bool
has_seen [] name = false
has_seen (s ∷ seen) name = str_eq s name || has_seen seen name

-- The checks of one key, in the order of the loop.
abbrev pub key_checks : List String → ℕ → ClientKey → List (List Problem)
key_checks seen i k =
    report (str_eq k.opening.name "") (no_name i)
    ∷ report (str_eq k.opening.key "") (no_key i)
    ∷ report (has_seen seen k.opening.name) (duplicate_name k.opening.name)
    ∷ report (not (str_eq k.opening.previous_key "") && str_eq k.opening.previous_key k.opening.key)
        (same_key i)
    ∷ report (not (str_eq k.opening.role "client") && not (str_eq k.opening.role "admin"))
        (unknown_role i)
    ∷ report (is_negative k.max_queued) (negative_limit i "max_queued")
    ∷ report (negative_option k.max_schedules) (negative_limit i "max_schedules")
    ∷ report (is_negative k.max_concurrent) (negative_limit i "max_concurrent")
    ∷ report (out_of_range k.max_priority) (priority_out_of_range i)
    ∷ []

unfoldable pub key_problems : List String → ℕ → ClientKey → List Problem
key_problems seen i k = joined (key_checks seen i k)

-- The loop of `auth` from key `i` on.
unfoldable pub auth_from : List String → ℕ → List ClientKey → List Problem
auth_from seen i [] = []
auth_from seen i (k ∷ ks) = key_problems seen i k ++ auth_from (k.opening.name ∷ seen) (suc i) ks

abbrev pub nothing_listed : List ClientKey → Bool
nothing_listed [] = true
nothing_listed (k ∷ ks) = false

-- The method `auth` of the validator.
unfoldable pub auth : List ClientKey → List Problem
auth ks = report (nothing_listed ks) no_keys ++ auth_from [] 0 ks
