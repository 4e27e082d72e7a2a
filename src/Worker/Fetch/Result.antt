-- ===== src/Worker/Fetch/Result.antt =====
-- `fetchAll` under every interleaving: what the collector returns, against fetching one resolvent
-- after another in document order.
use tenta_cron.Prelude.{
  ℕ, zero, suc, ◌+◌, ◌≡◌, refl, sym, ◌∙◌, ap, String, Bool, true, false, some, List, [], ◌∷◌, inl,
  inr, Bool-cases, if◌then◌else◌, ltb, length, min,
}
use tenta_cron.Worker.Process.{UpstreamError, is_context_err}
use tenta_cron.Worker.Fetch.{
  Outcome, fetched, failed, skipped, Status, waiting, flying, sent, received, Move, feed, skip,
  expire, finish, collect, Task, task, start_tasks, start_next, update_at, flying_count, is_stopped,
  all_received, finish_task, collect_task, apply_move, run_moves, pick_from, pick_resolve_error,
  Fetches, unresolved, series, with_result, gather, collect_fetches,
}
use tenta_cron.Worker.Fetch.{unique_by_hash, fetch_all, gather}
use tenta_cron.Worker.Fetch.Order.{
  Ordered, AllWaiting, After, After-map, AllWaiting-Ordered, Ordered-update_at,
  Ordered-start_flying, Ordered-start_skipped, finish_task-KeepsTask, collect_task-KeepsTask,
}

-- The job's context did not end in these moves.
unfoldable pub in_time : List Move → Bool
in_time [] = true
in_time (feed ∷ ms) = in_time ms
in_time (skip ∷ ms) = in_time ms
in_time (expire x ∷ ms) = false
in_time (finish i ∷ ms) = in_time ms
in_time (collect i ∷ ms) = in_time ms

module _ (outcome : String → Outcome) (workers : ℕ) where
  Ordered-run_moves :
      (ms : List Move) (ts : List Task)
      → in_time ms ≡ true
      → Ordered outcome ts
      → Ordered outcome (run_moves outcome workers ms ts)
  unfolding run_moves in_time apply_move
  Ordered-run_moves [] ts calm a = a
  Ordered-run_moves (feed ∷ ms) ts calm a =
      Ordered-run_moves ms _ calm (elim (Bool-cases (ltb (flying_count ts) workers)) [
        | inl e ↦ rw e (Ordered-start_flying outcome ts a)
        | inr e ↦ rw e a
      ])
  Ordered-run_moves (skip ∷ ms) ts calm a =
      Ordered-run_moves ms _ calm (elim (Bool-cases (is_stopped ts)) [
        | inl e ↦ rw e (Ordered-start_skipped outcome ts e a)
        | inr e ↦ rw e a
      ])
  Ordered-run_moves (expire x ∷ ms) ts calm a = let no : ⊥ = cc in elim no [ ]
  Ordered-run_moves (finish i ∷ ms) ts calm a =
      Ordered-run_moves ms _ calm (Ordered-update_at outcome (finish_task-KeepsTask outcome) i ts a)
  Ordered-run_moves (collect i ∷ ms) ts calm a =
      Ordered-run_moves ms _ calm
        (Ordered-update_at outcome (collect_task-KeepsTask outcome) i ts a)

-- The resolvents' hashes do not change.
abbrev pub hashes : List Task → List String
hashes [] = []
hashes (task h s ∷ ts) = h ∷ hashes ts

hashes-start_tasks : (hs : List String) → hashes (start_tasks hs) ≡ hs
unfolding start_tasks
hashes-start_tasks [] = refl
hashes-start_tasks (h ∷ hs) = rw (hashes-start_tasks hs) refl

hashes-start_next : (s : Status) (ts : List Task) → hashes (start_next s ts) ≡ hashes ts
unfolding start_next
hashes-start_next s [] = refl
hashes-start_next s (task h waiting ∷ ts) = refl
hashes-start_next s (task h flying ∷ ts) = rw (hashes-start_next s ts) refl
hashes-start_next s (task h (sent o) ∷ ts) = rw (hashes-start_next s ts) refl
hashes-start_next s (task h (received o) ∷ ts) = rw (hashes-start_next s ts) refl

hashes-update_at :
    (u : String → Status → Status) (i : ℕ) (ts : List Task) → hashes (update_at u i ts) ≡ hashes ts
unfolding update_at
hashes-update_at u i [] = refl
hashes-update_at u zero (task h s ∷ ts) = refl
hashes-update_at u (suc i) (task h s ∷ ts) = rw (hashes-update_at u i ts) refl

module _ (outcome : String → Outcome) (workers : ℕ) where
  hashes-apply_move :
      (m : Move) (ts : List Task) → hashes (apply_move outcome workers m ts) ≡ hashes ts
  unfolding apply_move
  hashes-apply_move feed ts = elim (Bool-cases (ltb (flying_count ts) workers)) [
    | inl e ↦ rw e (hashes-start_next flying ts)
    | inr e ↦ rw e refl
  ]
  hashes-apply_move skip ts = elim (Bool-cases (is_stopped ts)) [
    | inl e ↦ rw e (hashes-start_next (sent (failed skipped)) ts)
    | inr e ↦ rw e refl
  ]
  hashes-apply_move (expire x) ts = hashes-start_next (sent (failed x)) ts
  hashes-apply_move (finish i) ts = hashes-update_at (finish_task outcome) i ts
  hashes-apply_move (collect i) ts = hashes-update_at collect_task i ts

  hashes-run_moves :
      (ms : List Move) (ts : List Task) → hashes (run_moves outcome workers ms ts) ≡ hashes ts
  unfolding run_moves
  hashes-run_moves [] ts = refl
  hashes-run_moves (m ∷ ms) ts = hashes-run_moves ms _ ∙ hashes-apply_move m ts

-- The reference: one fetch after another, up to the first that fails.
abbrev pub then_fetch : String → Outcome → Fetches → Fetches
then_fetch h (failed x) rest = unresolved (some x)
then_fetch h (fetched body cached) (unresolved x) = unresolved x
then_fetch h (fetched body cached) (series kvs n) =
    series ((h, body) ∷ kvs) ((if cached then 1 else 0) + n)

unfoldable pub fetch_in_order : (String → Outcome) → List String → Fetches
fetch_in_order outcome [] = series [] 0
fetch_in_order outcome (h ∷ hs) = then_fetch h (outcome h) (fetch_in_order outcome hs)

-- No fetch fails by the end of a context.
abbrev pub Genuine : (String → Outcome) → Type 0
Genuine outcome = (h : String) (x : UpstreamError) → outcome h ≡ failed x → is_context_err x ≡ false

collect_fetches-nil : collect_fetches [] ≡ series [] 0
unfolding collect_fetches is_stopped gather
collect_fetches-nil = refl

with_result-fetched :
    (h body : String) (cached : Bool) (r : Fetches)
    → with_result h (fetched body cached) r ≡ then_fetch h (fetched body cached) r
with_result-fetched h body cached (unresolved x) = refl
with_result-fetched h body cached (series kvs n) = refl

collect_fetches-fetched :
    (h body : String) (cached : Bool) (ts : List Task)
    → collect_fetches (task h (received (fetched body cached)) ∷ ts)
      ≡ then_fetch h (fetched body cached) (collect_fetches ts)
unfolding collect_fetches is_stopped pick_resolve_error pick_from gather
collect_fetches-fetched h body cached ts = elim (Bool-cases (is_stopped ts)) [
  | inl e ↦ rw e refl
  | inr e ↦ rw e (with_result-fetched h body cached (gather ts))
]

collect_fetches-failed :
    (h : String) (x : UpstreamError) (ts : List Task)
    → is_context_err x ≡ false
    → collect_fetches (task h (received (failed x)) ∷ ts) ≡ unresolved (some x)
unfolding collect_fetches is_stopped pick_resolve_error pick_from
collect_fetches-failed h x ts g = rw g refl

module _ (outcome : String → Outcome) (genuine : Genuine outcome) where
  collect_fetches-received :
      (h : String) (o : Outcome) (ts : List Task) (rest : Fetches)
      → o ≡ outcome h
      → After o (collect_fetches ts ≡ rest) Unit
      → collect_fetches (task h (received o) ∷ ts) ≡ then_fetch h o rest
  collect_fetches-received h (fetched body cached) ts rest e a =
      rw (← a) (collect_fetches-fetched h body cached ts)
  collect_fetches-received h (failed x) ts rest e a =
      collect_fetches-failed h x ts (genuine h x (sym e))

  collect_fetches-Ordered :
      (ts : List Task)
      → Ordered outcome ts
      → all_received ts ≡ true
      → collect_fetches ts ≡ fetch_in_order outcome (hashes ts)
  unfolding all_received fetch_in_order
  collect_fetches-Ordered [] a r = collect_fetches-nil
  collect_fetches-Ordered (task h waiting ∷ ts) a r = let no : ⊥ = cc in elim no [ ]
  collect_fetches-Ordered (task h flying ∷ ts) a r = let no : ⊥ = cc in elim no [ ]
  collect_fetches-Ordered (task h (sent o) ∷ ts) a r = let no : ⊥ = cc in elim no [ ]
  collect_fetches-Ordered (task h (received o) ∷ ts) a r = rw (← a.0) (
      collect_fetches-received h o ts _ a.0
        (rw a.0 (After-map (outcome h) (λ k. collect_fetches-Ordered ts k r) (λ _. tt) a.1)))

start_tasks-AllWaiting : (hs : List String) → AllWaiting (start_tasks hs)
unfolding start_tasks
start_tasks-AllWaiting [] = tt
start_tasks-AllWaiting (h ∷ hs) = (refl, start_tasks-AllWaiting hs)

-- Where the job's context does not end and no fetch fails by a context, every interleaving of the
-- feeder, the fetchers and the collector in which each result has been drained returns what fetching
-- the unique resolvents one after another in document order returns: the error of the first that
-- fails, or every series with the number of cache hits.
pub fetch_all-in_order :
    (outcome : String → Outcome) (concurrency : ℕ) (ms : List Move) (hs : List String)
    → Genuine outcome
    → in_time ms ≡ true
    → all_received (fetch_all outcome concurrency ms hs) ≡ true
    → collect_fetches (fetch_all outcome concurrency ms hs)
      ≡ fetch_in_order outcome (unique_by_hash hs)
unfolding fetch_all
fetch_all-in_order outcome concurrency ms hs genuine calm r =
    let workers : ℕ = min concurrency (length (unique_by_hash hs)) in
    let start : List Task = start_tasks (unique_by_hash hs) in
    collect_fetches-Ordered outcome genuine _
      (Ordered-run_moves outcome workers ms start calm
        (AllWaiting-Ordered outcome start (start_tasks-AllWaiting _)))
      r
    ∙ ap (fetch_in_order outcome)
        (hashes-run_moves outcome workers ms start ∙ hashes-start_tasks (unique_by_hash hs))
