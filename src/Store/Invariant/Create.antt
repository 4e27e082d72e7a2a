-- ===== src/Store/Invariant/Create.antt =====
-- Accepting a job keeps the invariant of the tables (internal/store/jobs.go, `CreateJob`).

use tenta_cron.Prelude.{
  ℕ, suc, ◌+◌, ◌≤◌, String, ◌≡◌, refl, Bool, false, Option, none, some, List, [], ◌∷◌, ◌&&◌,
  if◌then◌else◌, arith, str_eq, count_where, count_where-append_one, find_where, Bool-cases, inl,
  inr, str_eq→≡, str_eq_refl, is_text,
}
use tenta_cron.Prelude.Tables.{find_by, find_by-append_one, find_by-append_ne, UniqueBy-append_one}
use tenta_cron.Store.Model.{Submission, Job, Database}
use tenta_cron.Store.Sql.Hoare.{Post-tables}
use tenta_cron.Store.Create.{
  has_key, last_seq, new_row, key_held, Stored, created, replayed, create_job, create_job_once,
}
use tenta_cron.Store.Create.Outcome.{
  Accepted, Same, accepted_db, create_job-Post, create_job_once-Post,
}
use tenta_cron.Store.Invariant.{RowIsValid, Linked, LinkedAt, IsValid, history, history-append_one}
use tenta_cron.Store.Invariant.Keeps.{Keeps}

new_row-RowIsValid : (s : Submission) (now seq : ℕ) → RowIsValid (new_row s now seq)
new_row-RowIsValid s now seq = ground arith

count_where-find_where :
    (p : Job → Bool) (js : List Job) → find_where p js ≡ none → count_where p js ≡ 0
unfolding find_where count_where
count_where-find_where p [] h = refl
count_where-find_where p (j ∷ js) h = ground (arith, count_where-find_where p js)

accepted_self :
    (s : Submission) (now : ℕ) (d : Database)
    → find_by (λ j. j.id) s.id d.jobs ≡ none
    → LinkedAt s.id d
    → LinkedAt s.id (accepted_db s now d)
accepted_self s now d fresh l =
    let (no_events, no_delivery) =
      (let l' : Linked none (history s.id d.events) (find_by (λ v. v.job_id) s.id d.deliveries) =
          (rw fresh at l) in
        l') in
    rw
      (
        find_by-append_one (λ j. j.id) s.id d.jobs (new_row s now (suc (last_seq d.jobs))),
        history-append_one,
        fresh,
        str_eq_refl s.id,
        no_events,
        no_delivery,
      )
      (new_row-RowIsValid s now _, (refl, refl, tt), refl, refl)

accepted-other :
    (s : Submission) (now : ℕ) (d : Database) (k : String)
    → str_eq s.id k ≡ false
    → LinkedAt k d
    → LinkedAt k (accepted_db s now d)
accepted-other s now d k ne l =
    rw
      (
        find_by-append_ne (λ j. j.id) k d.jobs (new_row s now (suc (last_seq d.jobs))) ne,
        history-append_one,
        ne,
      )
      l

-- A key that nobody holds is counted nowhere.
not_held :
    (client x : String) (js : List Job)
    → key_held client (some x) js ≡ false
    → count_where (has_key client x) js ≡ 0
not_held client x js h = count_where-find_where (has_key client x) js (ground arith)

accepted-once :
    (s : Submission) (now : ℕ) (d : Database) (client key : String)
    → key_held s.client s.idempotency_key d.jobs ≡ false
    → count_where (has_key client key) d.jobs ≤ 1
    → count_where (has_key client key) (accepted_db s now d).jobs ≤ 1
accepted-once s now d client key held once = rw count_where-append_one (go s.idempotency_key held)
  where
    go :
        (o : Option String)
        → key_held s.client o d.jobs ≡ false
        → count_where (has_key client key) d.jobs
            + (if str_eq s.client client && is_text o key then 1 else 0)
          ≤ 1
    go none h = ground arith
    go (some x) h = elim (Bool-cases (str_eq s.client client && str_eq x key)) [
      | inl e ↦
          let c : s.client ≡ client = str_eq→≡ _ _ (ground arith) in
          let k : x ≡ key = str_eq→≡ _ _ (ground arith) in
          rw e (omega (arith, (rw (c, k) at (not_held s.client x d.jobs h))))
      | inr e ↦ rw e (omega arith)
    ]

Accepted-IsValid :
    (s : Submission) (queue_cap : ℕ) (d : Database)
    → IsValid d
    → (r : Stored) (d' : Database) → Accepted s queue_cap d r d'
    → IsValid d'
Accepted-IsValid s queue_cap d v (created t now) d' a = record {
  at = λ k. rw a.4 (elim (Bool-cases (str_eq s.id k)) [
    | inl e ↦ rw (← str_eq→≡ s.id k e) (accepted_self s now d a.1 (v.at s.id))
    | inr ne ↦ accepted-other s now d k ne (v.at k)
  ]);
  unique =
      rw a.4 (
        UniqueBy-append_one (λ j. j.id) d.jobs (new_row s now (suc (last_seq d.jobs))) v.unique
          a.1);
  once = λ client key. rw a.4 (accepted-once s now d client key a.2 (v.once client key));
}
Accepted-IsValid s queue_cap d v (replayed j) d' a = rw a.3 v

pub create_job_once-Keeps : (s : Submission) (queue_cap : ℕ) → Keeps (create_job_once s queue_cap)
create_job_once-Keeps s queue_cap = record {
  keeps = λ e w v.
      Post-tables (Accepted s queue_cap w.db) (Same w.db) IsValid (create_job_once s queue_cap e w)
        (create_job_once-Post s queue_cap e w) (λ r d a. Accepted-IsValid s queue_cap w.db v r d a)
        (λ x d same. rw same v);
}

pub create_job-Keeps : (s : Submission) (queue_cap : ℕ) → Keeps (create_job s queue_cap)
create_job-Keeps s queue_cap = record {
  keeps = λ e w v.
      Post-tables (Accepted s queue_cap w.db) (Same w.db) IsValid (create_job s queue_cap e w)
        (create_job-Post s queue_cap e w) (λ r d a. Accepted-IsValid s queue_cap w.db v r d a)
        (λ x d same. rw same v);
}
