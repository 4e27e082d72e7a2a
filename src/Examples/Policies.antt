-- ===== src/Examples/Policies.antt =====
-- Browser policies at concrete inputs.
use mathlib.Core.Option
use tenta_cron.Prelude.{
  find_where, List, Option, String, All, negsuc, pos_part, str_eq, if◌then◌else◌, ◌≤◌, ◌+◌, ◌^◌,
  arith,
}
use tenta_cron.Config.{WorkerConfig, ClientKey, worker, auth, auth_from, key_problems, has_seen}
use tenta_cron.Config.Accepted.{Steady, worker-Steady}
use tenta_cron.Config.Keys.{Usable, Distinct, auth-Distinct}
use tenta_cron.Config.Budget.{
  BudgetTarget, BudgetResolvent, call_time, longest_from, longest_resolvent_timeout, budget_of,
  need_of, add64, timeout_budget, timeout_budget-covers,
}
use tenta_cron.Prelude.Tables.{find_by}
use tenta_cron.Prelude.{ℕ, ◌*◌, ◌/◌}
use tenta_cron.Store.Model.{text}
use tenta_cron.Store.Sql.{ok}
use tenta_cron.Examples.{calm_env, queued, queued_row}
use tenta_cron.Api.{Answer, just, handle_cancel}
use tenta_cron.Api.Scope.{is_closed_to, handle_cancel-scoped}
use tenta_cron.Access.{authenticate_from, may_read}
use tenta_cron.Access.{ApiKey, authenticate, opens, identity_of, Url, check}
use tenta_cron.Access.Keys.{authenticate-find_where, Fenced, check-Fenced}
use tenta_cron.Prelude.{
  ◌<◌, ◌≡◌, ◌≢◌, ◌↔◌, refl, true, false, ◌&&◌, none, some, [], ◌∷◌, ◌++◌, pos, is_some, length,
}
use tenta_cron.Cors.Bytes.{bytes, to_lower, eq_bytes, cut, strip_prefix, has_byte, has_entry}
use tenta_cron.Cors.Policy.{
  Text, CorsConfig, star, validate, validate_origins, validate_origin, allows_any, new_policy,
  Wildcard, matches, origin_allowed, one, CorsRequest, is_named, serve,
}
use tenta_cron.Cors.Policy.Origins.{any_allows, origin_allowed-new_policy, matches_iff}
use tenta_cron.Cors.Policy.Responses.{allowed_origin, serve-grants, serve-credentials}

abbrev subdomains : CorsConfig
subdomains = record {
  allowed_origins = bytes "https://*.example.org" ∷ bytes "https://app.example.net" ∷ [];
  allowed_methods = [];
  allowed_headers = [];
  expose_headers = [];
  allow_credentials = true;
  max_age = pos 0;
  allow_private_network = false;
}

abbrev browser_request : CorsRequest
browser_request = record {
  is_options = false;
  origin = bytes "https://A.b.example.org";
  request_method = [];
  request_headers = [];
  request_private_network = [];
}

origin_allowed-new_policy_example :
    origin_allowed (new_policy subdomains) browser_request.origin
    ≡ any_allows subdomains.allowed_origins (to_lower browser_request.origin)
origin_allowed-new_policy_example = origin_allowed-new_policy subdomains browser_request.origin

abbrev pattern : Wildcard
pattern = record { prefix = bytes "https://"; suffix = bytes ".example.org" }

matches_iff_example : (matches pattern (bytes "https://evil-example.org") ≡ true) ↔ (
    (sub : Text) × (bytes "https://evil-example.org"
      ≡ bytes "https://" ++ (sub ++ bytes ".example.org"))
    × (0 < length sub))
matches_iff_example = matches_iff pattern (bytes "https://evil-example.org")

serve-grants_example : is_some (allowed_origin (serve (new_policy subdomains) browser_request)) ≡ (
    is_named browser_request.origin
    && any_allows subdomains.allowed_origins (to_lower browser_request.origin))
serve-grants_example = serve-grants subdomains browser_request

subdomains_valid : validate subdomains ≡ none
unfolding validate validate_origins validate_origin allows_any eq_bytes cut strip_prefix has_byte
    has_entry
subdomains_valid = refl

serve-credentials_example :
    allowed_origin (serve (new_policy subdomains) browser_request) ≢ some (one star)
serve-credentials_example = serve-credentials subdomains browser_request subdomains_valid refl

abbrev rotated : ApiKey
rotated = record { name = "planner"; role = "client"; key = "new"; previous_key = "old" }

abbrev keys : List ApiKey
keys = record rotated { name = "operator"; key = "root"; previous_key = "" } ∷ rotated ∷ []

authenticate-find_where_example :
    authenticate "old" keys ≡ Option.map identity_of (find_where (λ k. opens k "old") keys)
authenticate-find_where_example = authenticate-find_where "old" keys

abbrev hook : Url
hook = record { scheme = "https"; has_user = false; host = "Hooks.example.org" }

check-Fenced_example :
    (check ("hooks.example.org" ∷ []) (some hook) ≡ none)
    ↔ ((u : Url) × (some hook ≡ some u) × Fenced ("hooks.example.org" ∷ []) u)
check-Fenced_example = check-Fenced ("hooks.example.org" ∷ []) (some hook)

abbrev workers : WorkerConfig
workers = record {
  count = pos 4;
  resolvent_concurrency = pos 8;
  poll_interval = pos 1000000000;
  max_attempts = pos 5;
  backoff_base = pos 2000000000;
  backoff_max = pos 60000000000;
  job_timeout = pos 600000000000;
  scheduler_interval = pos 15000000000;
}

workers_accepted : worker workers ≡ []
unfolding worker
workers_accepted = refl

jitter_in_range : (b : ℕ) → 5 * (b + b / 10) ≤ 6 * b
jitter_in_range b = omega arith

worker-Steady_example : Steady workers (λ b. b + b / 10) 40
worker-Steady_example = worker-Steady workers (λ b. b + b / 10) 40 jitter_in_range workers_accepted

abbrev client_keys : List ClientKey
client_keys =
    record {
      opening = rotated;
      max_concurrent = pos 2;
      max_queued = pos 0;
      max_schedules = none;
      max_priority = some (negsuc 2);
    }
    ∷ record {
      opening = record rotated { name = "operator"; role = "admin"; previous_key = "" };
      max_concurrent = pos 0;
      max_queued = pos 10;
      max_schedules = some (pos 0);
      max_priority = none;
    }
    ∷ []

client_keys_accepted : auth client_keys ≡ []
unfolding auth auth_from key_problems has_seen
client_keys_accepted = refl

auth-Distinct_example : (0 < length client_keys) × All Usable client_keys × Distinct client_keys
auth-Distinct_example = auth-Distinct client_keys client_keys_accepted

abbrev simulation : BudgetTarget
simulation = record { timeout = pos 60000000000; job_timeout = pos 0; is_proxy = false }

abbrev weather : BudgetResolvent
weather = record { timeout = pos 30000000000; target = "" }

abbrev lookup : String → Option BudgetTarget
lookup name = if str_eq name "simulation" then some simulation else none

budget_accepted :
    timeout_budget simulation (pos 120000000000) (longest_resolvent_timeout lookup (weather ∷ []))
    ≡ []
unfolding timeout_budget longest_resolvent_timeout longest_from call_time budget_of need_of add64
budget_accepted = refl

own_budget : budget_of simulation (pos 120000000000) ≡ pos 120000000000
unfolding budget_of
own_budget = refl

longest_fits : 60000000000 + pos_part (longest_resolvent_timeout lookup (weather ∷ [])) < 2 ^ 63
unfolding longest_resolvent_timeout longest_from call_time
longest_fits = omega arith

timeout_budget-covers_example :
    (60000000000 ≤ 120000000000)
    × All (λ r. 60000000000 + pos_part (call_time lookup r) ≤ 120000000000) (weather ∷ [])
timeout_budget-covers_example =
    timeout_budget-covers lookup (weather ∷ []) simulation (pos 120000000000) 60000000000
      120000000000 refl (omega arith) own_budget (omega arith) refl longest_fits budget_accepted

planner_barred :
    is_closed_to (authenticate "old" keys) (find_by (λ j. j.id) "job-1" queued.db.jobs) ≡ true
unfolding authenticate authenticate_from may_read
planner_barred = rw queued_row refl

handle_cancel-scoped_example :
    (a : Answer) × (n : ℕ) × (handle_cancel
        (λ target. true)
        (λ name. text "cancelled by client")
        keys
        "old"
        "job-1"
        calm_env
        queued
      ≡ (ok (just a), record queued { step = n }))
handle_cancel-scoped_example =
    handle_cancel-scoped (λ target. true) (λ name. text "cancelled by client") keys "old" "job-1"
      calm_env queued planner_barred
