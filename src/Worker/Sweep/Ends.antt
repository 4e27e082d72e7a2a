-- ===== src/Worker/Sweep/Ends.antt =====
-- The loop of `pruneRetention` ends: each full round removes a job.
use tenta_cron.Prelude.{
  ℕ, zero, suc, ◌+◌, ◌≤◌, ◌<◌, ◌≡◌, refl, ◌∙◌, ap, String, str_eq, str_eq_refl, str_eq→≡, Bool,
  true, false, not, List, [], ◌∷◌, map, if◌then◌else◌, ltb, length, take, drop, All, select_where,
  count_where, count_where-le-length, ◌-◌, arith, Bool-cases, inl, inr,
}
use tenta_cron.Store.Model.{Job, Database, ts}
use tenta_cron.Store.Sql.{
  Result, ok, err, Env, World, M, pure, recover, choose, continue, statement, query, execute, ◌>>=◌,
  ◌>>◌,
}
use tenta_cron.Store.Claim.{is_listed}
use tenta_cron.Store.Claim.Ceiling.{All-sort_by, All-take}
use tenta_cron.Store.Retention.{
  done_sooner, is_expired, expired, terminal_before, delete_job_chunk, delete_chunk_size,
  delete_from, delete_jobs,
}
use tenta_cron.Worker.Sweep.{prune_batch, prune_from}

-- Some row has the id.
abbrev HasId : List Job → String → Type 0
HasId js id = 0 < count_where (λ j. str_eq j.id id) js

length-select_where_le : (p : Job → Bool) (js : List Job) → length (select_where p js) ≤ length js
unfolding select_where
length-select_where_le p [] = omega arith
length-select_where_le p (j ∷ js) = elim (Bool-cases (p j)) [
  | inl e ↦ rw e (omega (arith, length-select_where_le p js))
  | inr e ↦ rw e (omega (arith, length-select_where_le p js))
]

unlisted_other :
    (id k : String) (ids : List String) → is_listed k (id ∷ ids) ≡ false → str_eq k id ≡ false
unlisted_other id k ids e = elim (Bool-cases (str_eq k id)) [
  | inl q ↦
      let own : str_eq id k ≡ true = ap (str_eq id) (str_eq→≡ k id q) ∙ str_eq_refl id in
      let no : ⊥ = cc (rw own at e) in elim no [ ]
  | inr q ↦ q
]

-- Dropping a listed row makes the table shorter.
length-without :
    (id : String) (ids : List String) (js : List Job)
    → HasId js id
    → length (select_where (λ j. not (is_listed j.id (id ∷ ids))) js) < length js
unfolding select_where count_where
length-without id ids [] h = h
length-without id ids (j ∷ js) h = elim (Bool-cases (is_listed j.id (id ∷ ids))) [
  | inl e ↦ rw e (omega (arith, length-select_where_le (λ x. not (is_listed x.id (id ∷ ids))) js))
  | inr e ↦
      let other : str_eq j.id id ≡ false = unlisted_other id j.id ids e in
      rw e (omega (arith, length-without id ids js (rw other at h)))
]

-- No more jobs are left than `n`, unless an error was returned.
abbrev AtMost : ℕ → {A : Type 0} → Result A × World → Type 0
AtMost n (ok a, w) = length w.db.jobs ≤ n
AtMost n (err x, w) = Unit

delete_job_chunk-AtMost :
    (ids : List String) (n : ℕ) (e : Env) (w : World)
    → length (select_where (λ j. not (is_listed j.id ids)) w.db.jobs) ≤ n
    → AtMost n (delete_job_chunk ids e w)
unfolding delete_job_chunk execute
delete_job_chunk-AtMost ids n e w l = elim (Bool-cases (e.fails w.step)) [
  | inl f ↦ rw f tt
  | inr f ↦ rw f l
]

and_then_AtMost :
    (m : M (Unit {0})) (k : M (Unit {0})) (n : ℕ) (e : Env) (w : World)
    → AtMost n (m e w)
    → ((v : World) → length v.db.jobs ≤ n → AtMost n (k e v))
    → AtMost n ((m >> k) e w)
unfolding ◌>>=◌
and_then_AtMost m k n e w a f = step (m e w) a
  where
    step : (r : Result (Unit {0}) × World) → AtMost n r → AtMost n (continue (λ _. k) e r)
    step (ok u, v) b = f v b
    step (err x, v) b = tt

delete_from-AtMost :
    (fuel : ℕ) (ids : List String) (n : ℕ) (e : Env) (w : World)
    → length w.db.jobs ≤ n
    → AtMost n (delete_from fuel ids e w)
unfolding delete_from pure
delete_from-AtMost fuel [] n e w l = l
delete_from-AtMost zero (id ∷ ids) n e w l = l
delete_from-AtMost (suc fuel) (id ∷ ids) n e w l =
    and_then_AtMost (delete_job_chunk (take delete_chunk_size (id ∷ ids)))
      (delete_from fuel (drop delete_chunk_size (id ∷ ids))) n e w
      (delete_job_chunk-AtMost (take delete_chunk_size (id ∷ ids)) n e w (
        omega (
          arith,
          length-select_where_le (λ j. not (is_listed j.id (take delete_chunk_size (id ∷ ids))))
              w.db.jobs,
        )))
      (λ v k. delete_from-AtMost fuel (drop delete_chunk_size (id ∷ ids)) n e v k)

-- Deleting a job that is there leaves fewer.
delete_jobs-AtMost :
    (id : String) (ids : List String) (n : ℕ) (e : Env) (w : World)
    → HasId w.db.jobs id
    → length w.db.jobs ≤ suc n
    → AtMost n (delete_jobs (id ∷ ids) e w)
unfolding delete_jobs delete_from
delete_jobs-AtMost id ids n e w h l =
    and_then_AtMost (delete_job_chunk (take delete_chunk_size (id ∷ ids)))
      (delete_from (length ids) (drop delete_chunk_size (id ∷ ids))) n e w
      (delete_job_chunk-AtMost (take delete_chunk_size (id ∷ ids)) n e w
        (omega (arith, length-without id (take 499 ids) w.db.jobs h)))
      (λ v k. delete_from-AtMost (length ids) (drop delete_chunk_size (id ∷ ids)) n e v k)

All-weaken : (P Q : Job → Type 0) (js : List Job) → ((j : Job) → P j → Q j) → All P js → All Q js
All-weaken P Q [] f a = tt
All-weaken P Q (j ∷ js) f a = (f j a.0, All-weaken P Q js f a.1)

HasId-∷ : (j : Job) (js : List Job) (id : String) → HasId js id → HasId (j ∷ js) id
unfolding count_where
HasId-∷ j js id h = ground arith

All-HasId : (js : List Job) → All (λ j. HasId js j.id) js
unfolding count_where
All-HasId [] = tt
All-HasId (j ∷ js) = (
  rw (str_eq_refl j.id) (omega arith),
  All-weaken (λ x. HasId js x.id) (λ x. HasId (j ∷ js) x.id) js (λ x h. HasId-∷ j js x.id h)
      (All-HasId js),
)

All-kept :
    (P : Job → Type 0) (p : Job → Bool) (js : List Job) → All P js → All P (select_where p js)
unfolding select_where
All-kept P p [] a = tt
All-kept P p (j ∷ js) a = elim (Bool-cases (p j)) [
  | inl e ↦ rw e (a.0, All-kept P p js a.1)
  | inr e ↦ rw e (All-kept P p js a.1)
]

-- Every job that is read for removal is in the table.
expired-HasId :
    (cutoff limit : ℕ) (d : Database) → All (λ j. HasId d.jobs j.id) (expired cutoff limit d)
unfolding expired
expired-HasId cutoff limit d =
    let P : Job → Type 0 = λ j. HasId d.jobs j.id in
    All-take P limit _ (
      All-sort_by P (λ a b. done_sooner a.completed_at b.completed_at)
        (select_where (is_expired cutoff) d.jobs)
        (All-kept P (is_expired cutoff) d.jobs (All-HasId d.jobs)))

-- The loop has ended.
abbrev Ended : Result Bool × World → Type 0
Ended r = r.0 ≡ ok true

prune_batch-Ended :
    (batch : ℕ) (rest : M Bool) (js : List Job) (e : Env) (w : World)
    → All (λ j. HasId w.db.jobs j.id) js
    → ((v : World) → length v.db.jobs < length w.db.jobs → Ended (rest e v))
    → Ended (prune_batch batch rest (map (λ j. j.id) js) e w)
unfolding recover pure
prune_batch-Ended batch rest [] e w a k = refl
prune_batch-Ended batch rest (j ∷ js) e w a k =
    step (delete_jobs (j.id ∷ map (λ x. x.id) js) e w)
      (delete_jobs-AtMost j.id (map (λ x. x.id) js) (length w.db.jobs - 1) e w a.0 (omega arith))
  where
    after :
        (v : World)
        → length v.db.jobs ≤ length w.db.jobs - 1
        → Ended ((if ltb (length (j.id ∷ map (λ x. x.id) js)) batch then pure true else rest) e v)
    after v b = elim (Bool-cases (ltb (length (j.id ∷ map (λ x. x.id) js)) batch)) [
      | inl q ↦ rw q refl
      | inr q ↦
          rw q (k v (omega (arith, a.0, count_where-le-length (λ x. str_eq x.id j.id) w.db.jobs)))
    ]

    step :
        (r : Result (Unit {0}) × World)
        → AtMost (length w.db.jobs - 1) r
        → Ended (
            choose
              (λ x. pure true)
              (λ _. if ltb (length (j.id ∷ map (λ x. x.id) js)) batch then pure true else rest)
              e
              r)
    step (ok u, v) b = after v b
    step (err x, v) b = refl

-- With one round more than there are jobs in the tables, the loop of `pruneRetention` ends, whatever
-- the cutoff, the size of a batch and the faults: each round that goes on has deleted a job.
pub prune_from-Ended :
    (fuel cutoff batch : ℕ) (e : Env) (w : World)
    → length w.db.jobs < fuel
    → (prune_from fuel cutoff batch e w).0 ≡ ok true
unfolding prune_from recover pure terminal_before query statement
prune_from-Ended zero cutoff batch e w l = let no : ⊥ = omega arith in elim no [ ]
prune_from-Ended (suc fuel) cutoff batch e w l = elim (Bool-cases (e.fails w.step)) [
  | inl f ↦ rw f refl
  | inr f ↦ rw f (
      prune_batch-Ended batch (prune_from fuel cutoff batch) (expired (ts cutoff) batch w.db) e
        (record w { step = w.step + 1 }) (expired-HasId (ts cutoff) batch w.db)
        (λ v b. prune_from-Ended fuel cutoff batch e v (omega arith)))
]
