-- ===== src/Worker/Fetch.antt =====
-- internal/worker/process.go, `fetchAll` and what it is made of: `uniqueByHash`, `feedResolvents`,
-- `fetchLoop`, `collectFetches` and `pickResolveError`. The goroutines are a list of tasks in
-- document order and a list of moves, one interleaving of them; a move that is not enabled changes
-- nothing. What `fetchOne` comes to, when it runs, is a parameter. The maps by hash are the tasks
-- themselves, since no two tasks have the same hash.
pub mod Unique
pub mod Order
pub mod Result
pub mod Progress
pub mod Errors
pub mod Bounds
use tenta_cron.Prelude.{
  ℕ, zero, suc, ◌+◌, String, Bool, true, false, ◌&&◌, ◌||◌, not, Option, none, some, List, [], ◌∷◌,
  map, if◌then◌else◌, is_some, str_eq, ltb, length, min,
}
use tenta_cron.Worker.Process.{UpstreamError, is_context_err}

-- What a fetch comes to: the series with its hit, or the error.
pub data Outcome : Type 0 where
  fetched : String → Bool → Outcome
  failed : UpstreamError → Outcome

abbrev pub error_of : Outcome → Option UpstreamError
error_of (fetched body cached) = none
error_of (failed x) = some x

-- The error of a resolvent that was not fetched since another failed: it wraps `context.Canceled`.
abbrev pub skipped : UpstreamError
skipped = record {
  transient = false;
  cancelled = true;
  deadline = false;
  bad_body = false;
  bad_reference = false;
  message = "fetch skipped after another resolvent failed: context canceled";
}

-- Not fed yet; with a fetcher; in the channel of results; drained by the collector.
pub data Status : Type 0 where
  waiting flying : Status
  sent received : Outcome → Status

abbrev pub is_waiting : Status → Bool
is_waiting waiting = true
is_waiting flying = false
is_waiting (sent o) = false
is_waiting (received o) = false

abbrev pub is_flying : Status → Bool
is_flying waiting = false
is_flying flying = true
is_flying (sent o) = false
is_flying (received o) = false

abbrev pub is_received : Status → Bool
is_received waiting = false
is_received flying = false
is_received (sent o) = false
is_received (received o) = true

abbrev pub received_error : Status → Option UpstreamError
received_error waiting = none
received_error flying = none
received_error (sent o) = none
received_error (received o) = error_of o

pub data Move : Type 0 where
  -- the feeder hands the next resolvent to an idle fetcher, or reports it without a fetch, since
  -- `stop` is closed or since the context ended
  feed skip : Move
  expire : UpstreamError → Move
  -- the fetcher of a task sends its result, and the collector takes it
  finish collect : ℕ → Move

pub data Task : Type 0 where
  task : String → Status → Task

-- The tasks before the feeder starts.
unfoldable pub start_tasks : List String → List Task
start_tasks [] = []
start_tasks (h ∷ hs) = task h waiting ∷ start_tasks hs

-- The next task of the feeder, in document order, gets a status.
unfoldable pub start_next : Status → List Task → List Task
start_next s [] = []
start_next s (task h waiting ∷ ts) = task h s ∷ ts
start_next s (task h flying ∷ ts) = task h flying ∷ start_next s ts
start_next s (task h (sent o) ∷ ts) = task h (sent o) ∷ start_next s ts
start_next s (task h (received o) ∷ ts) = task h (received o) ∷ start_next s ts

unfoldable pub update_at : (String → Status → Status) → ℕ → List Task → List Task
update_at u i [] = []
update_at u zero (task h s ∷ ts) = task h (u h s) ∷ ts
update_at u (suc i) (task h s ∷ ts) = task h s ∷ update_at u i ts

-- The fetchers that hold a resolvent.
unfoldable pub flying_count : List Task → ℕ
flying_count [] = 0
flying_count (task h s ∷ ts) = (if is_flying s then 1 else 0) + flying_count ts

-- `stop` is closed: the collector has received an error.
unfoldable pub is_stopped : List Task → Bool
is_stopped [] = false
is_stopped (task h s ∷ ts) = is_some (received_error s) || is_stopped ts

unfoldable pub all_received : List Task → Bool
all_received [] = true
all_received (task h s ∷ ts) = is_received s && all_received ts

-- `fetchLoop`: the result of `fetchOne` goes to the channel.
abbrev pub finish_task : (String → Outcome) → String → Status → Status
finish_task outcome h waiting = waiting
finish_task outcome h flying = sent (outcome h)
finish_task outcome h (sent o) = sent o
finish_task outcome h (received o) = received o

abbrev pub collect_task : String → Status → Status
collect_task h waiting = waiting
collect_task h flying = flying
collect_task h (sent o) = received o
collect_task h (received o) = received o

-- One step of one goroutine.
unfoldable pub apply_move : (String → Outcome) → ℕ → Move → List Task → List Task
apply_move outcome workers feed ts =
    if ltb (flying_count ts) workers then start_next flying ts else ts
apply_move outcome workers skip ts =
    if is_stopped ts then start_next (sent (failed skipped)) ts else ts
apply_move outcome workers (expire x) ts = start_next (sent (failed x)) ts
apply_move outcome workers (finish i) ts = update_at (finish_task outcome) i ts
apply_move outcome workers (collect i) ts = update_at collect_task i ts

unfoldable pub run_moves : (String → Outcome) → ℕ → List Move → List Task → List Task
run_moves outcome workers [] ts = ts
run_moves outcome workers (m ∷ ms) ts =
    run_moves outcome workers ms (apply_move outcome workers m ts)

-- One round of `pickResolveError`, with the fallback so far and the rounds that follow.
abbrev pub pick_or :
    Option UpstreamError
    → Option UpstreamError
    → (Option UpstreamError → Option UpstreamError)
    → Option UpstreamError
pick_or none fallback rest = rest fallback
pick_or (some x) fallback rest =
    if not (is_context_err x) then some x else rest (if is_some fallback then fallback else some x)

-- The loop of `pickResolveError`.
unfoldable pub pick_from : Option UpstreamError → List Task → Option UpstreamError
pick_from fallback [] = fallback
pick_from fallback (task h s ∷ ts) = pick_or (received_error s) fallback (λ next. pick_from next ts)

-- `pickResolveError`
unfoldable pub pick_resolve_error : List Task → Option UpstreamError
pick_resolve_error ts = pick_from none ts

-- What `fetchAll` returns: the error, or the series by hash with the number of hits.
pub data Fetches : Type 0 where
  unresolved : Option UpstreamError → Fetches
  series : List (String × String) → ℕ → Fetches

-- A result in `seriesByHash` and `cached`.
abbrev pub with_result : String → Outcome → Fetches → Fetches
with_result h o (unresolved x) = unresolved x
with_result h (failed x) (series kvs n) = series kvs n
with_result h (fetched body cached) (series kvs n) =
    series ((h, body) ∷ kvs) ((if cached then 1 else 0) + n)

-- `seriesByHash` and `cached` at the end of the loop of `collectFetches`.
unfoldable pub gather : List Task → Fetches
gather [] = series [] 0
gather (task h waiting ∷ ts) = gather ts
gather (task h flying ∷ ts) = gather ts
gather (task h (sent o) ∷ ts) = gather ts
gather (task h (received o) ∷ ts) = with_result h o (gather ts)

-- `collectFetches`, when it has drained every result.
unfoldable pub collect_fetches : List Task → Fetches
collect_fetches ts = if is_stopped ts then unresolved (pick_resolve_error ts) else gather ts

unfoldable pub has_hash : List String → String → Bool
has_hash [] h = false
has_hash (k ∷ ks) h = str_eq k h || has_hash ks h

-- The loop of `uniqueByHash`: `seen` holds the hashes kept so far.
unfoldable pub unique_from : List String → List String → List String
unique_from seen [] = []
unique_from seen (h ∷ hs) =
    let fresh = unique_from (h ∷ seen) hs in
    let again = unique_from seen hs in if has_hash seen h then again else h ∷ fresh

-- `uniqueByHash`, of the resolvents' hashes.
unfoldable pub unique_by_hash : List String → List String
unique_by_hash hs = unique_from [] hs

-- `fetchAll`, for one interleaving of its goroutines.
unfoldable pub fetch_all : (String → Outcome) → ℕ → List Move → List String → List Task
fetch_all outcome concurrency ms hs =
    run_moves outcome (min concurrency (length (unique_by_hash hs))) ms
      (start_tasks (unique_by_hash hs))
