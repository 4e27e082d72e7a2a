-- ===== src/Worker/Fetch/Bounds.antt =====
-- `fetchAll` under every interleaving: how many fetches run at once.
use tenta_cron.Prelude.{
  ℕ, zero, suc, ◌+◌, ◌≤◌, ◌<◌, ◌≡◌, refl, String, false, List, [], ◌∷◌, inl, inr, Bool-cases,
  if◌then◌else◌, ltb, length, arith, min,
}
use tenta_cron.Worker.Fetch.{
  Outcome, failed, skipped, Status, waiting, flying, sent, received, is_flying, Move, feed, skip,
  expire, finish, collect, Task, task, start_tasks, start_next, update_at, flying_count, is_stopped,
  finish_task, collect_task, apply_move, run_moves, unique_by_hash, fetch_all,
}

flying_count-start_next :
    (s : Status) (ts : List Task)
    → flying_count (start_next s ts) ≤ (if is_flying s then 1 else 0) + flying_count ts
unfolding flying_count start_next
flying_count-start_next s [] = omega arith
flying_count-start_next s (task h waiting ∷ ts) = omega arith
flying_count-start_next s (task h flying ∷ ts) = omega (arith, flying_count-start_next s ts)
flying_count-start_next s (task h (sent o) ∷ ts) = omega (arith, flying_count-start_next s ts)
flying_count-start_next s (task h (received o) ∷ ts) = omega (arith, flying_count-start_next s ts)

flying_count-update_at :
    (u : String → Status → Status) (i : ℕ) (ts : List Task)
    → ((h : String) (s : Status) → is_flying s ≡ false → is_flying (u h s) ≡ false)
    → flying_count (update_at u i ts) ≤ flying_count ts
unfolding flying_count update_at
flying_count-update_at u i [] k = omega arith
flying_count-update_at u zero (task h s ∷ ts) k = elim (Bool-cases (is_flying s)) [
  | inl e ↦ elim (Bool-cases (is_flying (u h s))) [
    | inl f ↦ rw (e, f) (omega arith)
    | inr f ↦ rw (e, f) (omega arith)
  ]
  | inr e ↦ rw (e, k h s e) (omega arith)
]
flying_count-update_at u (suc i) (task h s ∷ ts) k = omega (arith, flying_count-update_at u i ts k)

module _ (outcome : String → Outcome) (workers : ℕ) where
  flying_count-apply_move :
      (m : Move) (ts : List Task)
      → flying_count ts ≤ workers
      → flying_count (apply_move outcome workers m ts) ≤ workers
  unfolding apply_move
  flying_count-apply_move feed ts l = elim (Bool-cases (ltb (flying_count ts) workers)) [
    | inl e ↦
        let room : flying_count ts < workers = ground arith in
        rw e (omega (arith, flying_count-start_next flying ts, room))
    | inr e ↦ rw e l
  ]
  flying_count-apply_move skip ts l = elim (Bool-cases (is_stopped ts)) [
    | inl e ↦ rw e (omega (arith, flying_count-start_next (sent (failed skipped)) ts))
    | inr e ↦ rw e l
  ]
  flying_count-apply_move (expire x) ts l =
      omega (arith, flying_count-start_next (sent (failed x)) ts)
  flying_count-apply_move (finish i) ts l =
      omega (arith, flying_count-update_at (finish_task outcome) i ts free)
    where
      free :
          (h : String) (s : Status)
          → is_flying s ≡ false
          → is_flying (finish_task outcome h s) ≡ false
      free h waiting f = refl
      free h flying f = refl
      free h (sent o) f = refl
      free h (received o) f = refl
  flying_count-apply_move (collect i) ts l =
      omega (arith, flying_count-update_at collect_task i ts free)
    where
      free : (h : String) (s : Status) → is_flying s ≡ false → is_flying (collect_task h s) ≡ false
      free h waiting f = refl
      free h flying f = f
      free h (sent o) f = refl
      free h (received o) f = refl

  flying_count-run_moves :
      (ms : List Move) (ts : List Task)
      → flying_count ts ≤ workers
      → flying_count (run_moves outcome workers ms ts) ≤ workers
  unfolding run_moves
  flying_count-run_moves [] ts l = l
  flying_count-run_moves (m ∷ ms) ts l =
      flying_count-run_moves ms _ (flying_count-apply_move m ts l)

flying_count-start_tasks : (hs : List String) → flying_count (start_tasks hs) ≡ 0
unfolding flying_count start_tasks
flying_count-start_tasks [] = refl
flying_count-start_tasks (h ∷ hs) = omega (arith, flying_count-start_tasks hs)

-- At every point of every interleaving no more fetches run at once than `resolvent_concurrency`.
pub fetch_all-bounded :
    (outcome : String → Outcome) (concurrency : ℕ) (ms : List Move) (hs : List String)
    → flying_count (fetch_all outcome concurrency ms hs) ≤ concurrency
unfolding fetch_all
fetch_all-bounded outcome concurrency ms hs =
    let us : List String = unique_by_hash hs in
    omega (
      arith,
      flying_count-run_moves outcome (min concurrency (length us)) ms (start_tasks us)
          (omega (arith, flying_count-start_tasks us)),
    )
