-- ===== src/Examples/Fetching.antt =====
-- Fetches and chains of resolvents at concrete inputs.
use tenta_cron.Prelude.{◌≢◌}
use tenta_cron.Prelude.{
  ◌*◌, ◌≤◌, ◌≡◌, refl, String, str_eq, true, false, some, List, [], ◌∷◌, ◌++◌, arith, length,
  if◌then◌else◌, inl, inr, Bool-cases,
}
use tenta_cron.Prelude.Tables.{find_by}
use tenta_cron.Store.Model.{cache_use, cache_bypass, cache_refresh}
use tenta_cron.Store.Sql.{ok, World, ◌>>=◌, recover}
use tenta_cron.Store.Cache.{get_series, put_series}
use tenta_cron.Examples.{calm_env}
use tenta_cron.Runs.{empty}
use tenta_cron.Worker.Attempt.{returned, ResolventConfig, fetch_one}
use tenta_cron.Worker.Attempt.Cached.{Kept, fetch_one-hit}
use tenta_cron.Worker.Process.{UpstreamError}
use tenta_cron.Worker.Fetch.{
  run_moves, apply_move, update_at, is_stopped, start_tasks, unique_from, start_next, Outcome,
  fetched, failed, skipped, Move, feed, skip, finish, collect, Task, task, received, all_received,
  flying_count, fetch_all, unique_by_hash, collect_fetches, pick_resolve_error, has_hash,
}
use tenta_cron.Worker.Fetch.Result.{in_time, Genuine, fetch_in_order, fetch_all-in_order}
use tenta_cron.Worker.Fetch.Progress.{fetch_all-ends}
use tenta_cron.Worker.Fetch.Bounds.{fetch_all-bounded}
use tenta_cron.Worker.Fetch.Errors.{or_else, first_genuine, first_error, pick_resolve_error-first}

abbrev bad_gateway : UpstreamError
bad_gateway = record {
  transient = true;
  cancelled = false;
  deadline = false;
  bad_body = false;
  bad_reference = false;
  message = "502";
}

-- `a` is fetched and `b` fails.
abbrev outcome : String → Outcome
outcome h = if str_eq h "b" then failed bad_gateway else fetched "{}" false

abbrev payload : List String
payload = "a" ∷ "b" ∷ "a" ∷ "c" ∷ []

-- `b` fails before `a` is back, and `c` is skipped.
abbrev interleaving : List Move
interleaving = feed ∷ feed ∷ finish 1 ∷ collect 1 ∷ skip ∷ collect 2 ∷ finish 0 ∷ collect 0 ∷ []

outcome-Genuine : Genuine outcome
outcome-Genuine h x e = elim (Bool-cases (str_eq h "b")) [
  | inl f ↦ let same : failed bad_gateway ≡ failed x = rw f at e in cc
  | inr f ↦
      let no : fetched "{}" false ≡ failed x = rw f at e in let never : ⊥ = cc in elim never [ ]
]

drained : all_received (fetch_all outcome 2 interleaving payload) ≡ true
unfolding fetch_all all_received run_moves apply_move update_at is_stopped flying_count start_tasks
    unique_by_hash unique_from has_hash start_next
drained = refl

fetch_all-in_order_example :
    collect_fetches (fetch_all outcome 2 interleaving payload)
    ≡ fetch_in_order outcome (unique_by_hash payload)
unfolding in_time
fetch_all-in_order_example =
    fetch_all-in_order outcome 2 interleaving payload outcome-Genuine refl drained

fetch_all-ends_example :
    (ns : List Move) × (all_received (fetch_all outcome 2 (interleaving ++ ns) payload) ≡ true)
    × (length ns ≤ 3 * length (unique_by_hash payload))
fetch_all-ends_example = fetch_all-ends outcome 2 interleaving payload (omega arith)

fetch_all-bounded_example : flying_count (fetch_all outcome 2 (feed ∷ feed ∷ feed ∷ []) payload) ≤ 2
fetch_all-bounded_example = fetch_all-bounded outcome 2 (feed ∷ feed ∷ feed ∷ []) payload

abbrev two_errors : List Task
two_errors = task "a" (received (failed skipped)) ∷ task "b" (received (failed bad_gateway)) ∷ []

pick_resolve_error-first_example :
    pick_resolve_error two_errors ≡ or_else (first_genuine two_errors) (first_error two_errors)
pick_resolve_error-first_example = pick_resolve_error-first two_errors

abbrev weather : ResolventConfig
weather = record { type_name = "resolvent-weather"; cache_ttl = 3600000000000; adapt = λ b. some b }

-- The series was put before, and has not expired.
abbrev warm : World
warm = (put_series "h" "resolvent-weather" "{}" 3600000000000 calm_env empty).1

hit_read :
    (fetch_one weather cache_use "h" (returned "[]") calm_env warm).0 ≡ ok (fetched "{}" true)
unfolding fetch_one get_series put_series ◌>>=◌ find_by recover
hit_read = refl

fetch_one-hit_example :
    (cache_use ≢ cache_bypass) × (cache_use ≢ cache_refresh) × Kept "h" "{}" calm_env warm
fetch_one-hit_example =
    fetch_one-hit weather cache_use "h" "{}" (returned "[]") calm_env warm hit_read
