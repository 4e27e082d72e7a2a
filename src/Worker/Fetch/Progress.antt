-- ===== src/Worker/Fetch/Progress.antt =====
-- `fetchAll` under every interleaving: it ends, without a deadlock, and its goroutines are bounded.
use tenta_cron.Prelude.{
  ℕ, zero, suc, ◌+◌, ◌*◌, ◌≤◌, ◌<◌, ◌≡◌, refl, String, true, false, List, [], ◌∷◌, ◌++◌, ◌⊎◌, inl,
  inr, Bool-cases, ltb, length, arith, min,
}
use tenta_cron.Worker.Fetch.{
  Outcome, failed, skipped, Status, waiting, flying, sent, received, is_flying, Move, feed, skip,
  expire, finish, collect, Task, task, start_tasks, start_next, update_at, flying_count, is_stopped,
  all_received, finish_task, collect_task, apply_move, run_moves, unique_by_hash, fetch_all,
}

-- The steps that a task still takes.
abbrev pub steps_left : Status → ℕ
steps_left waiting = 3
steps_left flying = 2
steps_left (sent o) = 1
steps_left (received o) = 0

unfoldable pub weight : List Task → ℕ
weight [] = 0
weight (task h s ∷ ts) = steps_left s + weight ts

weight-start_next :
    (s : Status) (ts : List Task) → steps_left s ≤ 3 → weight (start_next s ts) ≤ weight ts
unfolding weight start_next
weight-start_next s [] l = omega arith
weight-start_next s (task h waiting ∷ ts) l = omega arith
weight-start_next s (task h flying ∷ ts) l = omega (arith, weight-start_next s ts l)
weight-start_next s (task h (sent o) ∷ ts) l = omega (arith, weight-start_next s ts l)
weight-start_next s (task h (received o) ∷ ts) l = omega (arith, weight-start_next s ts l)

weight-update_at :
    (u : String → Status → Status) (i : ℕ) (ts : List Task)
    → ((h : String) (s : Status) → steps_left (u h s) ≤ steps_left s)
    → weight (update_at u i ts) ≤ weight ts
unfolding weight update_at
weight-update_at u i [] l = omega arith
weight-update_at u zero (task h s ∷ ts) l = omega (arith, l h s)
weight-update_at u (suc i) (task h s ∷ ts) l = omega (arith, weight-update_at u i ts l)

steps_left-finish_task :
    (outcome : String → Outcome) (h : String) (s : Status)
    → steps_left (finish_task outcome h s) ≤ steps_left s
steps_left-finish_task outcome h waiting = omega arith
steps_left-finish_task outcome h flying = omega arith
steps_left-finish_task outcome h (sent o) = omega arith
steps_left-finish_task outcome h (received o) = omega arith

steps_left-collect_task : (h : String) (s : Status) → steps_left (collect_task h s) ≤ steps_left s
steps_left-collect_task h waiting = omega arith
steps_left-collect_task h flying = omega arith
steps_left-collect_task h (sent o) = omega arith
steps_left-collect_task h (received o) = omega arith

all_received-flying_count : (ts : List Task) → all_received ts ≡ true → flying_count ts ≡ 0
unfolding all_received flying_count
all_received-flying_count [] r = refl
all_received-flying_count (task h waiting ∷ ts) r = cc
all_received-flying_count (task h flying ∷ ts) r = cc
all_received-flying_count (task h (sent o) ∷ ts) r = cc
all_received-flying_count (task h (received o) ∷ ts) r =
    omega (arith, all_received-flying_count ts r)

-- What may happen next while a result is missing: a fetcher returns, or the collector receives, or
-- no fetcher is busy and the feeder has a task.
abbrev Next : (String → Outcome) → List Task → Type 0
Next outcome ts =
    ((i : ℕ) × (weight (update_at (finish_task outcome) i ts) < weight ts))
    ⊎ (((i : ℕ) × (weight (update_at collect_task i ts) < weight ts))
        ⊎ ((flying_count ts ≡ 0) × (weight (start_next flying ts) < weight ts)))

module _ (outcome : String → Outcome) where
  -- A task in front that is not with a fetcher.
  Next-∷ :
      (h : String) (s : Status) (ts : List Task)
      → is_flying s ≡ false
      → (weight (start_next flying ts) < weight ts
          → weight (start_next flying (task h s ∷ ts)) < weight (task h s ∷ ts))
      → Next outcome ts
      → Next outcome (task h s ∷ ts)
  unfolding weight update_at flying_count
  Next-∷ h s ts free f (inl (i, l)) = inl (suc i, omega arith)
  Next-∷ h s ts free f (inr (inl (i, l))) = inr (inl (suc i, omega arith))
  Next-∷ h s ts free f (inr (inr (z, l))) = inr (inr (rw (free, z) refl, f l))

  missing-Next : (ts : List Task) → all_received ts ≡ false → Next outcome ts
  unfolding weight update_at flying_count start_next all_received
  missing-Next [] r = let no : ⊥ = cc in elim no [ ]
  missing-Next (task h waiting ∷ ts) r = elim (Bool-cases (all_received ts)) [
    | inl e ↦ inr (inr (omega (arith, all_received-flying_count ts e), omega arith))
    | inr e ↦ Next-∷ h waiting ts refl (λ l. omega arith) (missing-Next ts e)
  ]
  missing-Next (task h flying ∷ ts) r = inl (0, omega arith)
  missing-Next (task h (sent o) ∷ ts) r = inr (inl (0, omega arith))
  missing-Next (task h (received o) ∷ ts) r =
      Next-∷ h (received o) ts refl (λ l. omega arith) (missing-Next ts r)

module _ (outcome : String → Outcome) (workers : ℕ) where
  -- A move that some goroutine can make.
  missing-moves :
      (ts : List Task)
      → 0 < workers
      → Next outcome ts
      → (m : Move) × (weight (apply_move outcome workers m ts) < weight ts)
  unfolding apply_move
  missing-moves ts w (inl (i, l)) = (finish i, l)
  missing-moves ts w (inr (inl (i, l))) = (collect i, l)
  missing-moves ts w (inr (inr (z, l))) =
      let idle : ltb (flying_count ts) workers ≡ true = ground (arith, z) in (feed, rw idle l)

  -- No move takes the tasks back.
  weight-apply_move :
      (m : Move) (ts : List Task) → weight (apply_move outcome workers m ts) ≤ weight ts
  unfolding apply_move
  weight-apply_move feed ts = elim (Bool-cases (ltb (flying_count ts) workers)) [
    | inl e ↦ rw e (weight-start_next flying ts (omega arith))
    | inr e ↦ rw e (omega arith)
  ]
  weight-apply_move skip ts = elim (Bool-cases (is_stopped ts)) [
    | inl e ↦ rw e (weight-start_next (sent (failed skipped)) ts (omega arith))
    | inr e ↦ rw e (omega arith)
  ]
  weight-apply_move (expire x) ts = weight-start_next (sent (failed x)) ts (omega arith)
  weight-apply_move (finish i) ts =
      weight-update_at (finish_task outcome) i ts (steps_left-finish_task outcome)
  weight-apply_move (collect i) ts = weight-update_at collect_task i ts steps_left-collect_task

  weight-run_moves :
      (ms : List Move) (ts : List Task) → weight (run_moves outcome workers ms ts) ≤ weight ts
  unfolding run_moves
  weight-run_moves [] ts = omega arith
  weight-run_moves (m ∷ ms) ts = omega (arith, weight-run_moves ms _, weight-apply_move m ts)

  -- From any state, moves that some goroutine can make until every result is received.
  run_to_end :
      (n : ℕ) (ts : List Task)
      → 0 < workers
      → weight ts ≤ n
      → (ms : List Move) × (all_received (run_moves outcome workers ms ts) ≡ true) × (length ms ≤ n)
  unfolding run_moves
  run_to_end zero ts w l = elim (Bool-cases (all_received ts)) [
    | inl e ↦ ([], e, omega arith)
    | inr e ↦
        let m = missing-moves ts w (missing-Next outcome ts e) in
        let no : ⊥ = omega (arith, m.1) in elim no [ ]
  ]
  run_to_end (suc n) ts w l = elim (Bool-cases (all_received ts)) [
    | inl e ↦ ([], e, omega arith)
    | inr e ↦
        let m = missing-moves ts w (missing-Next outcome ts e) in
        let rest = run_to_end n (apply_move outcome workers m.0 ts) w (omega (arith, m.1)) in
        (m.0 ∷ rest.0, rest.1, omega (arith, rest.2))
  ]

run_moves-append :
    (outcome : String → Outcome) (workers : ℕ) (ms ns : List Move) (ts : List Task)
    → run_moves outcome workers (ms ++ ns) ts
      ≡ run_moves outcome workers ns (run_moves outcome workers ms ts)
unfolding run_moves
run_moves-append outcome workers [] ns ts = refl
run_moves-append outcome workers (m ∷ ms) ns ts = run_moves-append outcome workers ms ns _

weight-start_tasks : (hs : List String) → weight (start_tasks hs) ≤ 3 * length hs
unfolding weight start_tasks
weight-start_tasks [] = omega arith
weight-start_tasks (h ∷ hs) = omega (arith, weight-start_tasks hs)

weightless-all_received : (ts : List Task) → weight ts ≤ 0 → all_received ts ≡ true
unfolding weight all_received
weightless-all_received [] l = refl
weightless-all_received (task h waiting ∷ ts) l = let no : ⊥ = omega arith in elim no [ ]
weightless-all_received (task h flying ∷ ts) l = let no : ⊥ = omega arith in elim no [ ]
weightless-all_received (task h (sent o) ∷ ts) l = let no : ⊥ = omega arith in elim no [ ]
weightless-all_received (task h (received o) ∷ ts) l = weightless-all_received ts (omega arith)

run_moves-ends :
    (outcome : String → Outcome) (concurrency : ℕ) (ms : List Move) (us : List String)
    → 0 < concurrency
    → (ns : List Move) × (all_received
          (run_moves outcome (min concurrency (length us)) (ms ++ ns) (start_tasks us))
        ≡ true)
      × (length ns ≤ 3 * length us)
run_moves-ends outcome concurrency ms [] w =
    let left = weight-run_moves outcome (min concurrency 0) (ms ++ []) (start_tasks []) in
    ([], weightless-all_received _ (omega (arith, left, weight-start_tasks [])), omega arith)
run_moves-ends outcome concurrency ms (u ∷ us) w =
    let workers : ℕ = min concurrency (length (u ∷ us)) in
    let start : List Task = start_tasks (u ∷ us) in
    let left = weight-run_moves outcome workers ms start in
    let rest =
      run_to_end outcome workers (3 * length (u ∷ us)) (run_moves outcome workers ms start)
        (omega arith) (omega (arith, left, weight-start_tasks (u ∷ us))) in
    (rest.0, rw (run_moves-append outcome workers ms rest.0 start) rest.1, rest.2)

-- With a concurrency above zero, `fetchAll` never deadlocks: after any interleaving whatever there
-- are further moves, at most three for each unique resolvent, by which the collector has one result
-- for every one of them, and the loop of `collectFetches` ends.
pub fetch_all-ends :
    (outcome : String → Outcome) (concurrency : ℕ) (ms : List Move) (hs : List String)
    → 0 < concurrency
    → (ns : List Move) × (all_received (fetch_all outcome concurrency (ms ++ ns) hs) ≡ true)
      × (length ns ≤ 3 * length (unique_by_hash hs))
unfolding fetch_all
fetch_all-ends outcome concurrency ms hs w =
    run_moves-ends outcome concurrency ms (unique_by_hash hs) w
