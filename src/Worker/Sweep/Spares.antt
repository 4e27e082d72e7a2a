-- ===== src/Worker/Sweep/Spares.antt =====
-- What a sweep leaves alone: jobs that wait, and jobs that ended within the retention.
use tenta_cron.Prelude.{
  ℕ, zero, suc, ◌≤◌, String, str_eq, str_eq-swap, str_eq→≡, ◌≡◌, ◌⊎◌, refl, ap, Bool, true, false,
  Option, none, some, List, [], ◌∷◌, map, take, drop, length, All, select_where, arith, Bool-cases,
  inl, inr, some_injective, ltb, and_false, ◌∙◌, or_false,
}
use tenta_cron.Prelude.Tables.{find_by, UniqueBy, find_by-update_by}
use tenta_cron.Store.Model.{
  Job, Database, Detail, Error, received, awaiting_target, is_terminal, is_held, ts,
}
use tenta_cron.Store.Sql.{M, Env, World, query, statement, execute, recover, ◌>>=◌}
use tenta_cron.Store.Sql.Hoare.{Post-tables}
use tenta_cron.Store.Sql.Holds.{
  Holds, Holds-pure, Holds-time_now, Holds-if, Holds-recover, Holds-bind,
}
use tenta_cron.Store.Transition.{transition, from_guard, transit, requeue_row}
use tenta_cron.Store.Transition.Outcome.{Committed, transition_guarded-Post}
use tenta_cron.Store.Claim.{is_listed}
use tenta_cron.Store.Claim.Ceiling.{All-sort_by, All-take}
use tenta_cron.Store.Recovery.{requeue_all, is_stuck, rescue_stuck}
use tenta_cron.Store.Retention.{
  is_expired, done_sooner, expired, terminal_before, delete_job_chunk, delete_from, delete_jobs,
  delete_chunk_size,
}
use tenta_cron.Store.Cache.{purge_expired_series}
use tenta_cron.Store.Invariant.{IsValid}
use tenta_cron.Store.Invariant.Recovery.{requeue_all-Keeps}
use tenta_cron.Store.Invariant.Retention.{delete_jobs-Keeps, find_by-kept}
use tenta_cron.Worker.Sweep.Keeps.{purge-Keeps}
use tenta_cron.Worker.Sweep.{
  SweepConfig, purge, batch_size, rescue_stuck_jobs, prune_batch, prune_from, prune_retention,
  sweep,
}

-- Whatever holds of what was read is there for what follows.
module _ {P : Database → Type 0} {A B : Type 0} where
  Holds-read :
      (f : Database → A) (k : A → M B)
      → ((d : Database) → P d → Holds P (k (f d)))
      → Holds P (query f >>= k)
  unfolding ◌>>=◌
  Holds-read f k h = record {
    keeps = λ e w v. elim (Bool-cases (e.fails w.step)) [
      | inl fault ↦ rw fault v
      | inr fine ↦ rw fine ((h w.db v).keeps e _ v)
    ];
  }

  Holds-recover_read :
      (f : Database → A) (g : Error → M B) (k : A → M B)
      → ((x : Error) → Holds P (g x))
      → ((d : Database) → P d → Holds P (k (f d)))
      → Holds P (recover (query f) g k)
  unfolding recover query statement
  Holds-recover_read f g k l h = record {
    keeps = λ e w v. elim (Bool-cases (e.fails w.step)) [
      | inl fault ↦ rw fault ((l _).keeps e _ v)
      | inr fine ↦ rw fine ((h w.db v).keeps e _ v)
    ];
  }

Holds-both :
    {P Q : Database → Type 0} {A : Type 0} (m : M A)
    → Holds P m
    → Holds Q m
    → Holds (λ d. P d × Q d) m
Holds-both m p q = record { keeps = λ e w v. (p.keeps e w v.0, q.keeps e w v.1) }

-- None of the rows has the id.
abbrev Others : String → List Job → Type 0
Others k js = All (λ j. str_eq j.id k ≡ false) js

unlisted_among :
    (k : String) (js : List Job) → Others k js → is_listed k (map (λ j. j.id) js) ≡ false
unlisted_among k [] a = refl
unlisted_among k (j ∷ js) a = rw (a.0, unlisted_among k js a.1) refl

Others-absent :
    (k : String) (p : Job → Bool) (js : List Job)
    → find_by (λ j. j.id) k js ≡ none
    → Others k (select_where p js)
unfolding find_by select_where
Others-absent k p [] f = tt
Others-absent k p (j ∷ js) f = elim (Bool-cases (str_eq j.id k)) [
  | inl e ↦ let no : ⊥ = cc (rw e at f) in elim no [ ]
  | inr e ↦
      let rest = Others-absent k p js (rw e at f) in
      elim (Bool-cases (p j)) [ inl t ↦ rw t (e, rest) | inr t ↦ rw t rest ]
]

-- A selection that the row under an id does not pass has no row with this id.
Others-select_where :
    (k : String) (z : Job) (p : Job → Bool) (js : List Job)
    → UniqueBy (λ j. j.id) js
    → find_by (λ j. j.id) k js ≡ some z
    → p z ≡ false
    → Others k (select_where p js)
unfolding find_by select_where
Others-select_where k z p [] u f t = tt
Others-select_where k z p (j ∷ js) u f t = elim (Bool-cases (str_eq j.id k)) [
  | inl e ↦
      let same : j ≡ z = some_injective (rw e at f) in
      let skipped : p j ≡ false = ap p same ∙ t in
      let absent : find_by (λ j. j.id) k js ≡ none = rw (str_eq→≡ j.id k e) at u.0 in
      rw skipped (Others-absent k p js absent)
  | inr e ↦
      let rest = Others-select_where k z p js u.1 (rw e at f) t in
      elim (Bool-cases (p j)) [ inl q ↦ rw q (e, rest) | inr q ↦ rw q rest ]
]

unlisted_take :
    (k : String) (n : ℕ) (ids : List String)
    → is_listed k ids ≡ false
    → is_listed k (take n ids) ≡ false
unlisted_take k zero ids h = refl
unlisted_take k (suc n) [] h = refl
unlisted_take k (suc n) (id ∷ ids) h =
    let split = or_false (str_eq id k) (is_listed k ids) h in
    rw (split.0, unlisted_take k n ids split.1) refl

unlisted_drop :
    (k : String) (n : ℕ) (ids : List String)
    → is_listed k ids ≡ false
    → is_listed k (drop n ids) ≡ false
unlisted_drop k zero ids h = h
unlisted_drop k (suc n) [] h = refl
unlisted_drop k (suc n) (id ∷ ids) h =
    unlisted_drop k n ids (or_false (str_eq id k) (is_listed k ids) h).1

unexpired :
    (z : Job) (cutoff : ℕ)
    → (is_terminal z.state ≡ false) ⊎ ((at : ℕ) × (z.completed_at ≡ some at) × (cutoff ≤ at))
    → is_expired cutoff z ≡ false
unexpired z cutoff (inl live) = rw live refl
unexpired z cutoff (inr (at, e, h)) =
    let late : ltb at cutoff ≡ false = ground arith in
    rw (e, late) (and_false (is_terminal z.state))

module _ (k : String) (z : Job) where
  abbrev Here : Database → Type 0
  Here d = find_by (λ j. j.id) k d.jobs ≡ some z

  abbrev Spared : Database → Type 0
  Spared d = IsValid d × Here d

  requeue_one-Here :
      (id : String) (detail : Detail)
      → str_eq id k ≡ false
      → Holds Here (transition id none received detail (requeue_row none))
  unfolding transition
  requeue_one-Here id detail other = record {
    keeps = λ e w s.
        Post-tables
          (λ _ d.
            Committed id (from_guard none) received detail (e.clock w.step) (requeue_row none)
              (find_by (λ j. j.id) id w.db.jobs) w.db d)
          (λ x d. d ≡ w.db) Here _
          (transition_guarded-Post id (from_guard none) received detail (requeue_row none)
            (λ j. refl) e w)
          (λ _ d c. go (e.clock w.step) (find_by (λ j. j.id) id w.db.jobs) w.db d s c)
          (λ x d same. rw same s);
  }
    where
      go :
          (now : ℕ) (o : Option Job) (d d' : Database)
          → Here d
          → Committed id (from_guard none) received detail now (requeue_row none) o d d'
          → Here d'
      go now none d d' s c = elim c [ ]
      go now (some j) d d' s c =
          rw
            (
              c.2,
              find_by-update_by (λ j. j.id) id k (transit received now (requeue_row none)) d.jobs
                  (λ j. refl),
              str_eq-swap id k other,
            )
            s

  requeue_all-Here :
      (detail : Detail) (ids : List String)
      → is_listed k ids ≡ false
      → Holds Here (requeue_all detail ids)
  unfolding requeue_all
  requeue_all-Here detail [] h = Holds-pure tt
  requeue_all-Here detail (id ∷ ids) h =
      let split = or_false (str_eq id k) (is_listed k ids) h in
      Holds-bind _ _ (requeue_one-Here id detail split.0) (λ _. requeue_all-Here detail ids split.1)

  rescue_stuck-Spared :
      (cutoff_for : String → ℕ) → is_held z.state ≡ false → Holds Spared (rescue_stuck cutoff_for)
  unfolding rescue_stuck
  rescue_stuck-Spared cutoff_for free =
      let detail : Detail = Detail.text "rescued stuck job" in
      Holds-read _ _ λ d (v, s).
        let ids : List String = map (λ j. j.id) (select_where (is_stuck cutoff_for) d.jobs) in
        let away =
          unlisted_among k (select_where (is_stuck cutoff_for) d.jobs)
            (Others-select_where k z (is_stuck cutoff_for) d.jobs v.unique s (rw free refl)) in
        Holds-bind _ _
          (Holds-both (requeue_all detail ids) (requeue_all-Keeps detail ids)
            (requeue_all-Here detail ids away))
          (λ _. Holds-pure _)

  delete_job_chunk-Here :
      (ids : List String) → is_listed k ids ≡ false → Holds Here (delete_job_chunk ids)
  unfolding delete_job_chunk execute
  delete_job_chunk-Here ids h = record {
    keeps = λ e w s. elim (Bool-cases (e.fails w.step)) [
      | inl fault ↦ rw fault s
      | inr fine ↦ rw fine (find_by-kept (λ j. j.id) ids k w.db.jobs ∙ rw h s)
    ];
  }

  delete_from-Here :
      (fuel : ℕ) (ids : List String) → is_listed k ids ≡ false → Holds Here (delete_from fuel ids)
  unfolding delete_from
  delete_from-Here fuel [] h = Holds-pure tt
  delete_from-Here zero (id ∷ ids) h = Holds-pure tt
  delete_from-Here (suc fuel) (id ∷ ids) h =
      Holds-bind _ _
        (delete_job_chunk-Here (take delete_chunk_size (id ∷ ids))
          (unlisted_take k delete_chunk_size (id ∷ ids) h))
        (λ _.
          delete_from-Here fuel (drop delete_chunk_size (id ∷ ids))
            (unlisted_drop k delete_chunk_size (id ∷ ids) h))

  prune_batch-Spared :
      (batch : ℕ) (rest : M Bool) (ids : List String)
      → is_listed k ids ≡ false
      → Holds Spared rest
      → Holds Spared (prune_batch batch rest ids)
  unfolding delete_jobs
  prune_batch-Spared batch rest [] h r = Holds-pure true
  prune_batch-Spared batch rest (id ∷ ids) h r =
      Holds-recover _ _ _
        (Holds-both (delete_jobs (id ∷ ids)) (delete_jobs-Keeps (id ∷ ids))
          (delete_from-Here (length (id ∷ ids)) (id ∷ ids) h))
        (λ x. Holds-pure true) (λ _. Holds-if _ _ _ (Holds-pure true) r)

  prune_from-Spared :
      (fuel cutoff batch : ℕ)
      → is_expired (ts cutoff) z ≡ false
      → Holds Spared (prune_from fuel cutoff batch)
  unfolding prune_from terminal_before expired
  prune_from-Spared zero cutoff batch fresh = Holds-pure _
  prune_from-Spared (suc fuel) cutoff batch fresh =
      Holds-recover_read _ _ _ (λ x. Holds-pure true)
        λ d (v, s).
          let js : List Job = expired (ts cutoff) batch d in
          let P : Job → Type 0 = λ j. str_eq j.id k ≡ false in
          let away : Others k js = All-take P batch _ (
            All-sort_by P (λ a b. done_sooner a.completed_at b.completed_at)
              (select_where (is_expired (ts cutoff)) d.jobs)
              (Others-select_where k z (is_expired (ts cutoff)) d.jobs v.unique s fresh)) in
          prune_batch-Spared batch (prune_from fuel cutoff batch) (map (λ j. j.id) js)
            (unlisted_among k js away) (prune_from-Spared fuel cutoff batch fresh)

  purge-Here : Holds Here purge
  unfolding purge purge_expired_series statement
  purge-Here =
      Holds-recover _ _ _
        (Holds-time_now _ λ now. record {
          keeps = λ e w s. elim (Bool-cases (e.fails w.step)) [
            | inl fault ↦ rw fault s
            | inr fine ↦ rw fine s
          ];
        })
        (λ x. Holds-pure tt) (λ n. Holds-pure tt)

  sweep-Spared :
      (fuel : ℕ) (cfg : SweepConfig)
      → is_held z.state ≡ false
      → is_terminal z.state ≡ false
      → Holds Spared (sweep fuel cfg)
  unfolding sweep rescue_stuck_jobs prune_retention
  sweep-Spared fuel cfg free live = Holds-bind _ _ (Holds-both purge purge-Keeps purge-Here) λ _.
      Holds-bind _ _
        (Holds-time_now _ λ now.
          Holds-recover _ _ _ (rescue_stuck-Spared _ free) (λ x. Holds-pure tt)
            (λ n. Holds-pure tt))
        λ _. Holds-time_now _ λ now. prune_from-Spared fuel _ batch_size (rw live refl)

-- Retention leaves a job in valid tables exactly as it is, through however many rounds and whatever
-- fails, if the job has not ended or if it ended at the cutoff or after it.
pub prune_from-spares :
    (fuel cutoff batch : ℕ) (k : String) (z : Job) (e : Env) (w : World)
    → IsValid w.db
    → find_by (λ j. j.id) k w.db.jobs ≡ some z
    → (is_terminal z.state ≡ false) ⊎ ((at : ℕ) × (z.completed_at ≡ some at) × (ts cutoff ≤ at))
    → find_by (λ j. j.id) k (prune_from fuel cutoff batch e w).1.db.jobs ≡ some z
prune_from-spares fuel cutoff batch k z e w v s spared =
    ((prune_from-Spared k z fuel cutoff batch (unexpired z (ts cutoff) spared)).keeps e w (v, s)).1

-- A sweep leaves a job in valid tables that waits for a worker or for its target exactly as it is,
-- whatever fails: it is neither rescued nor deleted.
pub sweep-spares :
    (fuel : ℕ) (cfg : SweepConfig) (k : String) (z : Job) (e : Env) (w : World)
    → IsValid w.db
    → find_by (λ j. j.id) k w.db.jobs ≡ some z
    → (z.state ≡ received) ⊎ (z.state ≡ awaiting_target)
    → find_by (λ j. j.id) k (sweep fuel cfg e w).1.db.jobs ≡ some z
sweep-spares fuel cfg k z e w v s (inl waits) =
    ((sweep-Spared k z fuel cfg (rw waits refl) (rw waits refl)).keeps e w (v, s)).1
sweep-spares fuel cfg k z e w v s (inr waits) =
    ((sweep-Spared k z fuel cfg (rw waits refl) (rw waits refl)).keeps e w (v, s)).1
