-- ===== src/Store/Create/Outcome.antt =====
-- What accepting a job does to the tables, on every path (internal/store/jobs.go, `CreateJob`).

use tenta_cron.Prelude.{
  ℕ, zero, suc, ◌<◌, String, ◌≡◌, refl, ap, Bool, true, false, ◌&&◌, ◌||◌, not, Option, none, some,
  [], ◌∷◌, ◌++◌, if◌then◌else◌, arith, str_eq, ltb, leb, count_where, Bool-cases, inl, inr,
  str_eq→≡,
}
use tenta_cron.Prelude.Tables.{find_by}
use tenta_cron.Store.Model.{
  Error, idempotency_conflict, queue_full, received, Submission, Job, Database,
}
use tenta_cron.Store.Sql.{
  Env, World, pure, raise, statement, query, on_error, rollback, commit, ◌>>=◌, ◌>>◌,
}
use tenta_cron.Store.Sql.Hoare.{
  Post, Post-weaken, Post-bind, Post-commit, Post-rolled_back, Post-query, Post-time_now,
  Post-begin, Post-rollback, Post-pure, Post-raise, Post-recover,
}
use tenta_cron.Store.Transition.{append_event}
use tenta_cron.Store.Transition.Outcome.{with_event, append_event-Post}
use tenta_cron.Store.Create.{
  has_key, is_queued, last_seq, new_row, key_held, insert_job, find_by_key, or_not_found, Stored,
  created, replayed, get_job_by_idempotency, replay_idempotent, count_rows, count_key, count_queued,
  is_key_taken, is_not_found, insert_and_commit, create_job_once, create_retry, create_job,
  accepted_detail,
}

-- The tables with the new job in them.
abbrev pub with_job : Submission → ℕ → Database → Database
with_job s now d = record d { jobs = d.jobs ++ new_row s now (suc (last_seq d.jobs)) ∷ [] }

abbrev pub accepted_db : Submission → ℕ → Database → Database
accepted_db s now d =
    with_event s.id none received (accepted_detail s.not_before) now (with_job s now d)

-- What an accepted request leaves: the new row and its first event, where neither the id nor the
-- key was there and the cap was not reached; or, for a replay, the old tables.
abbrev pub Accepted : Submission → ℕ → Database → Stored → Database → Type 0
Accepted s queue_cap d (created t now) d' =
    (t ≡ s)
    × (find_by (λ j. j.id) s.id d.jobs ≡ none)
    × (key_held s.client s.idempotency_key d.jobs ≡ false)
    × (0 < queue_cap → count_where (is_queued s.client) d.jobs < queue_cap)
    × (d' ≡ accepted_db s now d)
Accepted s queue_cap d (replayed j) d' =
    (find_by_key s.client s.idempotency_key d.jobs ≡ some j)
    × (j.target ≡ s.target)
    × (j.payload ≡ s.payload)
    × (d' ≡ d)

abbrev pub Same : Database → Error → Database → Type 0
Same d x d' = d' ≡ d

module _ (s : Submission) (queue_cap : ℕ) (d : Database) (e : Env) where
  or_not_found-Post :
      (o : Option Job) (w : World)
      → w.db ≡ d
      → Post (λ j d'. (o ≡ some j) × (d' ≡ d)) (Same d) (or_not_found o e w)
  unfolding ◌>>=◌
  or_not_found-Post none w h = h
  or_not_found-Post (some j) w h = (refl, h)

  get_by_key-Post :
      (w : World)
      → w.db ≡ d
      → Post
          (λ j d'. (find_by_key s.client s.idempotency_key d.jobs ≡ some j) × (d' ≡ d))
          (Same d)
          (get_job_by_idempotency s.client s.idempotency_key e w)
  unfolding get_job_by_idempotency
  get_by_key-Post w h =
      let o : Option Job = find_by_key s.client s.idempotency_key d.jobs in
      Post-bind (λ r d'. (r ≡ o) × (d' ≡ d)) (λ j d'. (o ≡ some j) × (d' ≡ d)) (Same d) e (query _)
        _ w
        (Post-query _ (Same d) e _ w
          (ap (λ (t : Database). find_by_key s.client s.idempotency_key t.jobs) h, h) h)
        λ r w1 h1. rw h1.0 (or_not_found-Post o w1 h1.1)

  -- The stored job is handed back only for the same target and payload.
  settle-Post :
      (j : Job) (w : World)
      → find_by_key s.client s.idempotency_key d.jobs ≡ some j
      → w.db ≡ d
      → Post (Accepted s queue_cap d) (Same d) (
          (if not (str_eq j.target s.target) || not (str_eq j.payload s.payload)
              then raise idempotency_conflict
              else pure (replayed j))
            e w)
  settle-Post j w f h = elim (Bool-cases (str_eq j.target s.target)) [
    | inr t ↦ rw t (Post-raise (Accepted s queue_cap d) (Same d) e idempotency_conflict w h)
    | inl t ↦ elim (Bool-cases (str_eq j.payload s.payload)) [
      | inr p ↦ rw (t, p) (Post-raise (Accepted s queue_cap d) (Same d) e idempotency_conflict w h)
      | inl p ↦
          rw (t, p)
            (Post-pure (Accepted s queue_cap d) (Same d) e (replayed j) w
              (f, str_eq→≡ _ _ t, str_eq→≡ _ _ p, h))
    ]
  ]

  replay-Post :
      (w : World) → w.db ≡ d → Post (Accepted s queue_cap d) (Same d) (replay_idempotent s e w)
  unfolding replay_idempotent
  replay-Post w h =
      Post-bind (λ j d'. (find_by_key s.client s.idempotency_key d.jobs ≡ some j) × (d' ≡ d))
        (Accepted s queue_cap d) (Same d) e (get_job_by_idempotency s.client s.idempotency_key) _ w
        (get_by_key-Post w h) λ j w1 h1. settle-Post j w1 h1.0 h1.1

  insert-Post :
      (now : ℕ) (w : World)
      → w.db ≡ d
      → Post
          (λ _ d'.
            (find_by (λ j. j.id) s.id d.jobs ≡ none)
            × (key_held s.client s.idempotency_key d.jobs ≡ false)
            × (d' ≡ with_job s now d))
          (Same d)
          (insert_job s now e w)
  unfolding insert_job statement
  insert-Post now w h = ground arith

  -- The room under the cap that the count has shown.
  insert_and_commit-Post :
      (now : ℕ) (w : World)
      → w.db ≡ d
      → (0 < queue_cap → count_where (is_queued s.client) d.jobs < queue_cap)
      → Post (Accepted s queue_cap d) (Same d) (insert_and_commit s now d e w)
  unfolding insert_and_commit
  insert_and_commit-Post now w h room =
      let In : Unit → Database → Type 0 = λ _ d'.
        (find_by (λ j. j.id) s.id d.jobs ≡ none)
        × (key_held s.client s.idempotency_key d.jobs ≡ false)
        × (d' ≡ with_job s now d) in
      let Acc : Stored → Database → Type 0 = Accepted s queue_cap d in
      Post-recover In (Same d) Acc (Same d) e (insert_job s now) _ _ w (insert-Post now w h)
        (λ x w1 h1. Post-rollback Acc (Same d) e d _ w1 (λ w2 h2.
          elim (Bool-cases (is_key_taken x)) [
            | inl t ↦ rw t (replay-Post w2 h2)
            | inr t ↦ rw t (Post-raise Acc (Same d) e x w2 h2)
          ]))
        (λ _ w1 h1.
          let Ev : Unit → Database → Type 0 = λ _ d'. d' ≡ accepted_db s now d in
          Post-bind Ev Acc (Same d) e
            (on_error (rollback d)
              (append_event s.id none received (accepted_detail s.not_before) now))
            _ w1
            (Post-rolled_back Ev (Same d) e d _ w1
              (append_event-Post s.id none received (accepted_detail s.not_before) now
                (with_job s now d) e w1 h1.2)
              (λ x. refl))
            λ _ w2 h2.
              Post-bind Ev Acc (Same d) e (commit d) _ w2 (Post-commit Ev (Same d) e d w2 h2 refl)
                λ _ w3 h3. Post-pure Acc (Same d) e (created s now) w3 (refl, h1.0, h1.1, room, h3))

  abbrev Counted : (Job → Bool) → ℕ → Database → Type 0
  Counted p n d' = (n ≡ count_where p d.jobs) × (d' ≡ d)

  abbrev CountedIf : Bool → (Job → Bool) → ℕ → Database → Type 0
  CountedIf on p n d' = (on ≡ true → n ≡ count_where p d.jobs) × (d' ≡ d)

  count_rows-Post :
      (p : Job → Bool) (w : World) → w.db ≡ d → Post (Counted p) (Same d) (count_rows d p e w)
  count_rows-Post p w h =
      Post-rolled_back (Counted p) (Same d) e d _ w
        (Post-query (Counted p) (λ x d'. Unit) e _ w
          (ap (λ (t : Database). count_where p t.jobs) h, h) tt)
        (λ x. refl)

  count_key-Post :
      (on : Bool) (key : Option String) (w : World)
      → w.db ≡ d
      → Post (λ n d'. d' ≡ d) (Same d) (count_key on s.client key d e w)
  count_key-Post false key w h = Post-pure (λ n d'. d' ≡ d) (Same d) e 0 w h
  count_key-Post true none w h = Post-pure (λ n d'. d' ≡ d) (Same d) e 0 w h
  count_key-Post true (some key) w h =
      Post-weaken (Counted (has_key s.client key)) (λ n d'. d' ≡ d) (Same d) _
        (count_rows-Post (has_key s.client key) w h) (λ n d' p. p.1)

  count_queued-Post :
      (on : Bool) (w : World)
      → w.db ≡ d
      → Post (CountedIf on (is_queued s.client)) (Same d) (count_queued on s.client d e w)
  count_queued-Post false w h =
      Post-pure (CountedIf false (is_queued s.client)) (Same d) e 0 w ((λ f. cc), h)
  count_queued-Post true w h =
      Post-weaken (Counted (is_queued s.client)) (CountedIf true (is_queued s.client)) (Same d) _
        (count_rows-Post (is_queued s.client) w h) (λ n d' p. ((λ _. p.0), p.1))

  admit-Post :
      (now queued : ℕ) (w : World)
      → w.db ≡ d
      → (ltb 0 queue_cap ≡ true → queued ≡ count_where (is_queued s.client) d.jobs)
      → Post (Accepted s queue_cap d) (Same d) (
          (if ltb 0 queue_cap && leb queue_cap queued
              then rollback d >> raise queue_full
              else insert_and_commit s now d)
            e w)
  admit-Post now queued w h q = elim (Bool-cases (ltb 0 queue_cap && leb queue_cap queued)) [
    | inl full ↦ rw full (
        Post-rollback (Accepted s queue_cap d) (Same d) e d _ w
          (λ w1 h1. Post-raise (Accepted s queue_cap d) (Same d) e queue_full w1 h1))
    | inr free ↦ rw free (insert_and_commit-Post now w h (λ c. ground (arith, q (ground arith))))
  ]

pub create_job_once-Post :
    (s : Submission) (queue_cap : ℕ) (e : Env) (w : World)
    → Post (Accepted s queue_cap w.db) (Same w.db) (create_job_once s queue_cap e w)
unfolding create_job_once
create_job_once-Post s queue_cap e w =
    let Acc : Stored → Database → Type 0 = Accepted s queue_cap w.db in
    let on : Bool = ltb 0 queue_cap in
    Post-time_now Acc (Same w.db) e _ w (
      Post-begin Acc (Same w.db) e _ _
        (λ w1 h1.
          Post-bind (λ n d'. d' ≡ w.db) Acc (Same w.db) e
            (count_key on s.client s.idempotency_key w.db) _ w1
            (count_key-Post s queue_cap w.db e on s.idempotency_key w1 h1)
            λ known w2 h2. elim (Bool-cases (ltb 0 known)) [
              | inl k ↦ rw k (
                  Post-rollback Acc (Same w.db) e w.db _ w2
                    (λ w3 h3. replay-Post s queue_cap w.db e w3 h3))
              | inr k ↦ rw k (
                  Post-bind (CountedIf s queue_cap w.db e on (is_queued s.client)) Acc (Same w.db) e
                    (count_queued on s.client w.db) _ w2
                    (count_queued-Post s queue_cap w.db e on w2 h2)
                    λ queued w3 h3.
                      admit-Post s queue_cap w.db e (e.clock w.step) queued w3 h3.1 h3.0)
            ])
        refl)

create_retry-Post :
    (n : ℕ) (s : Submission) (queue_cap : ℕ) (d : Database) (e : Env) (w : World)
    → w.db ≡ d
    → Post (Accepted s queue_cap d) (Same d) (create_retry n s queue_cap e w)
unfolding create_retry
create_retry-Post zero s queue_cap d e w h = Post-raise (Accepted s queue_cap d) (Same d) e _ w h
create_retry-Post (suc n) s queue_cap d e w h =
    let Acc : Stored → Database → Type 0 = Accepted s queue_cap d in
    Post-recover Acc (Same d) Acc (Same d) e (create_job_once s queue_cap) _ _ w
      (rw (← h) (create_job_once-Post s queue_cap e w))
      (λ x w1 h1. elim (Bool-cases (is_not_found x)) [
        | inl t ↦ rw t (create_retry-Post n s queue_cap d e w1 h1)
        | inr t ↦ rw t (Post-raise Acc (Same d) e x w1 h1)
      ])
      (λ r w1 h1. Post-pure Acc (Same d) e r w1 h1)

-- A request that is accepted had a free id, a free idempotency key and, under a cap, fewer queued
-- jobs than the cap, and leaves the new row and its first event; one that is answered from the
-- store had the stored target and payload and leaves the tables alone, and so does one that is
-- refused or fails.
pub create_job-Post :
    (s : Submission) (queue_cap : ℕ) (e : Env) (w : World)
    → Post (Accepted s queue_cap w.db) (Same w.db) (create_job s queue_cap e w)
unfolding create_job
create_job-Post s queue_cap e w = create_retry-Post 3 s queue_cap w.db e w refl
