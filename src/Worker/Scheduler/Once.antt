-- ===== src/Worker/Scheduler/Once.antt =====
-- However many instances look at the same due time of a schedule, one run is counted
-- (internal/worker/scheduler.go, `materialize`).
use tenta_cron.Prelude.{leb-false}
use tenta_cron.Prelude.{suc, ◌+◌, subst, ap, ◌∙◌, str_eq_refl, and_left}
use tenta_cron.Store.Model.{Job, CacheMode, cache_default, cache_use, cache_bypass, cache_refresh}
use tenta_cron.Prelude.{
  ℕ, ◌*◌, ◌<◌, String, ◌≡◌, ◌≢◌, refl, Bool, true, false, ◌&&◌, Option, none, some, arith, leb,
  and_right, Bool-cases, inl, inr, some_injective,
}
use tenta_cron.Store.Model.{ts, parse_ts, Schedule, Database, Submission}
use tenta_cron.Store.Sql.{
  Result, ok, err, Env, World, pure, recover, choose, time_now, statement, ◌>>=◌,
}
use tenta_cron.Prelude.Tables.{find_by, find_by-append_one}
use tenta_cron.Store.Sql.Hoare.{Post}
use tenta_cron.Store.Create.{Stored, created, replayed, create_job, new_row, last_seq}
use tenta_cron.Store.Create.Outcome.{Accepted, Same, create_job-Post}
use tenta_cron.Store.Schedules.{advance_schedule, advance_if, advanced_row}
use tenta_cron.Store.Claim.{same_time}
use tenta_cron.Store.Schedules.Advance.{AtTime, Advanced, advance_schedule-Post, one_time}
use tenta_cron.Store.Claim.Outcome.{ok_injective}
use tenta_cron.Worker.Scheduler.{
  SchedulerConfig, run_of, run_options, next_run, is_created, stored_id, materialize_run,
  materialize_as, materialize,
}

schedules_kept :
    (s : Submission) (queue_cap : ℕ) (d : Database) (r : Stored) (d' : Database)
    → Accepted s queue_cap d r d'
    → d'.schedules ≡ d.schedules
schedules_kept s queue_cap d (created t now) d' a = rw a.4 refl
schedules_kept s queue_cap d (replayed j) d' a = rw a.3 refl

-- The job that a run makes of a schedule: by its client, under the key of the due time, and with
-- fresh inputs where the schedule does not say which cache mode it wants.
pub record HasRun (cfg : SchedulerConfig) (s : Schedule) (due : ℕ) (d : Database) : Type 0 where
  pub job : Job
  pub found : find_by (λ j. j.id) job.id d.jobs ≡ some job
  pub same_client : job.client ≡ s.client
  pub keyed : job.idempotency_key ≡ some (cfg.run_key s.id due)
  pub same_target : job.target ≡ s.target
  pub same_payload : job.payload ≡ s.payload
  pub refreshed : s.options ≡ cache_default → job.options ≡ cache_refresh
  pub asked_for : s.options ≢ cache_default → job.options ≡ s.options

refreshed_options : (o : CacheMode) → o ≡ cache_default → run_options o ≡ cache_refresh
refreshed_options o h = rw h refl

asked_options : (o : CacheMode) → o ≢ cache_default → run_options o ≡ o
asked_options cache_default h = elim (h refl) [ ]
asked_options cache_use h = refl
asked_options cache_bypass h = refl
asked_options cache_refresh h = refl

advance_schedule-jobs :
    (id : String) (due : ℕ) (job_id : String) (next : ℕ) (e : Env) (w : World)
    → (advance_schedule id due job_id next e w).1.db.jobs ≡ w.db.jobs
unfolding advance_schedule time_now statement pure ◌>>=◌
advance_schedule-jobs id due job_id next e w = elim (Bool-cases (e.fails (w.step + 1))) [
  | inl fault ↦ rw fault refl
  | inr fine ↦ rw fine (same (find_by (λ s. s.id) id w.db.schedules))
]
  where
    same :
        (o : Option Schedule)
        → (advance_if
            (ts due)
            (advanced_row (ts due) job_id (ts next) (ts (e.clock w.step)))
            id
            w.db
            o).1.jobs
          ≡ w.db.jobs
    same none = refl
    same (some s) = elim (Bool-cases (same_time s.next_run_at (some (ts due)))) [
      | inl t ↦ rw t refl
      | inr t ↦ rw t refl
    ]

-- A run that was counted found the schedule at the due time, moved it to the next one and made a job.
module _ (cfg : SchedulerConfig) (s : Schedule) (next : ℕ → ℕ) (due now : ℕ) (id : String)
    (e : Env) where
  abbrev later : ℕ
  later = next_run next due now

  abbrev Moved : Database → Result Bool × World → Type 0
  Moved d r =
      r.0 ≡ ok true
      → AtTime s.id (ts due) d × AtTime s.id (ts later) r.1.db × HasRun cfg s due r.1.db

  abbrev Step : Bool → Database → Result Bool × World → Type 0
  Step fresh d r =
      r.0 ≡ ok true → AtTime s.id (ts due) d × AtTime s.id (ts later) r.1.db × (fresh ≡ true)

  advanced-Step :
      (fresh : Bool) (d : Database) (r : Result Bool × World)
      → Post (Advanced s.id due later d) (λ x d. Unit {0}) r
      → Step fresh d (choose (λ x. pure false) (λ advanced. pure (fresh && advanced)) e r)
  unfolding pure
  advanced-Step fresh d (ok b, w) p h =
      let both : (fresh && b) ≡ true = ok_injective h in
      let (was, is) = p (and_right fresh b both) in (was, is, and_left fresh b both)
  advanced-Step fresh d (err x, w) p h = let no : ⊥ = cc in elim no [ ]

  -- The tables are those that the advance left, whether it counts or not.
  advanced_tables :
      (fresh : Bool) (r : Result Bool × World)
      → (choose (λ x. pure false) (λ advanced. pure (fresh && advanced)) e r).1.db ≡ r.1.db
  unfolding pure
  advanced_tables fresh (ok b, w) = refl
  advanced_tables fresh (err x, w) = refl

  accepted-HasRun :
      (d d' d'' : Database) (t : Submission) (at : ℕ)
      → Accepted (run_of cfg s due id) 0 d (created t at) d'
      → d''.jobs ≡ d'.jobs
      → HasRun cfg s due d''
  accepted-HasRun d d' d'' t at a kept = record {
    job = new_row (run_of cfg s due id) at (suc (last_seq d.jobs));
    found =
        rw
          (
            kept,
            a.4,
            find_by-append_one (λ j. j.id) id d.jobs
                (new_row (run_of cfg s due id) at (suc (last_seq d.jobs))),
            a.1,
            str_eq_refl id,
          )
          refl;
    same_client = refl;
    keyed = refl;
    same_target = refl;
    same_payload = refl;
    refreshed = refreshed_options s.options;
    asked_for = asked_options s.options;
  }

  stored-Moved :
      (d : Database) (r : Result Stored × World)
      → Post (Accepted (run_of cfg s due id) 0 d) (Same d) r
      → Moved d (
          choose
            (λ x. pure false)
            (λ stored.
              recover
                (advance_schedule s.id due (stored_id stored) later)
                (λ x. pure false)
                (λ advanced. pure (is_created stored && advanced)))
            e
            r)
  unfolding recover pure
  stored-Moved d (ok stored, v) p h =
      let kept = schedules_kept (run_of cfg s due id) 0 d stored v.db p in
      let (before, after, fresh) =
        advanced-Step (is_created stored) v.db
          (advance_schedule s.id due (stored_id stored) later e v)
          (advance_schedule-Post s.id due (stored_id stored) later e v) h in
      (rw kept at before, after, made stored p fresh)
    where
      made :
          (stored : Stored)
          → Accepted (run_of cfg s due id) 0 d stored v.db
          → is_created stored ≡ true
          → HasRun cfg s due
              (choose
                (λ x. pure false)
                (λ advanced. pure (is_created stored && advanced))
                e
                (advance_schedule s.id due (stored_id stored) later e v)).1.db
      made (created t at) a f = accepted-HasRun d v.db _ t at a (
          ap (λ (d : Database). d.jobs) (advanced_tables true _)
          ∙ advance_schedule-jobs s.id due t.id later e v)
      made (replayed j) a f = let no : ⊥ = cc in elim no [ ]
  stored-Moved d (err x, v) p h = let no : ⊥ = cc in elim no [ ]

  materialize_run-Moved : (w : World) → Moved w.db (materialize_run cfg s next due now id e w)
  unfolding materialize_run recover
  materialize_run-Moved w =
      stored-Moved w.db (create_job (run_of cfg s due id) 0 e w)
        (create_job-Post (run_of cfg s due id) 0 e w)

-- What a counted run had, and where its schedule was before and after.
pub record Counted (cfg : SchedulerConfig) (s : Schedule) (now : ℕ) (d d' : Database) : Type 0 where
  pub next : ℕ → ℕ
  pub due : ℕ
  pub parsed : cfg.parse s.cron s.timezone ≡ some next
  pub was_due : s.next_run_at ≡ some due
  pub before : AtTime s.id due d
  pub after : AtTime s.id (ts (next_run next (parse_ts due) now)) d'
  pub run : HasRun cfg s (parse_ts due) d'

parse_exact : (t : ℕ) → ts (parse_ts t) ≡ t
parse_exact t = omega arith

materialize_as-Counted :
    (cfg : SchedulerConfig) (s : Schedule) (now : ℕ) (next : Option (ℕ → ℕ)) (due : Option ℕ)
    (id : Option String) (e : Env) (w : World)
    → cfg.parse s.cron s.timezone ≡ next
    → s.next_run_at ≡ due
    → (materialize_as cfg s now next due id e w).0 ≡ ok true
    → Counted cfg s now w.db (materialize_as cfg s now next due id e w).1.db
unfolding pure
materialize_as-Counted cfg s now (some next) (some due) (some id) e w p q h =
    let (was, is, made) = materialize_run-Moved cfg s next (parse_ts due) now id e w h in
    record {
      next = next;
      due = due;
      parsed = p;
      was_due = q;
      before = rw (parse_exact due) at was;
      after = is;
      run = made;
    }
materialize_as-Counted cfg s now (some next) (some due) none e w p q h =
    let no : ⊥ = cc in elim no [ ]
materialize_as-Counted cfg s now (some next) none id e w p q h = let no : ⊥ = cc in elim no [ ]
materialize_as-Counted cfg s now none due id e w p q h = let no : ⊥ = cc in elim no [ ]

materialize-Counted :
    (cfg : SchedulerConfig) (s : Schedule) (now n : ℕ) (e : Env) (w : World)
    → (materialize cfg s now n e w).0 ≡ ok true
    → Counted cfg s now w.db (materialize cfg s now n e w).1.db
unfolding materialize
materialize-Counted cfg s now n e w h =
    materialize_as-Counted cfg s now (cfg.parse s.cron s.timezone) s.next_run_at (cfg.new_id n) e w
      refl refl h

-- `Next` of a parsed expression is a later time on a whole millisecond.
abbrev pub IsForward : (ℕ → ℕ) → Type 0
IsForward next = (t : ℕ) → (m : ℕ) × (next t ≡ parse_ts m) × (t < next t)

above : (due m : ℕ) → due * 1000000 < m * 1000000 → due < ts (parse_ts m)
above due m h = omega arith

next_run-later :
    (next : ℕ → ℕ) (due now : ℕ) → IsForward next → due < ts (next_run next (parse_ts due) now)
next_run-later next due now forward = elim (Bool-cases (leb (next now) (parse_ts due))) [
  | inl t ↦ let (m, e, h) = forward (parse_ts due) in rw (t, e) (above due m (rw e at h))
  | inr t ↦
      let (m, e, h) = forward now in
      rw (t, e) (above due m (rw e at (leb-false (next now) (parse_ts due) t)))
]

-- Where the cron library's next time is later and on a whole millisecond: once a run for the due time
-- of a schedule was counted, the schedule stands at a later time and its job is in the tables, by the
-- schedule's client, under the key of the due time, with its target and payload, and with a refreshed
-- cache where the schedule asks for none; and another scheduler that read the schedule before does
-- not count a run for it, whatever its faults, its clock and its id.
pub materialize-once :
    (cfg : SchedulerConfig) (s : Schedule) (due now n now' n' : ℕ) (e e' : Env) (w : World)
    → ((next : ℕ → ℕ) → cfg.parse s.cron s.timezone ≡ some next → IsForward next)
    → s.next_run_at ≡ some due
    → (materialize cfg s now n e w).0 ≡ ok true
    → let w1 = (materialize cfg s now n e w).1 in
      ((at : ℕ) × (due < at) × AtTime s.id at w1.db)
      × HasRun cfg s (parse_ts due) w1.db
      × ((materialize cfg s now' n' e' w1).0 ≢ ok true)
materialize-once cfg s due now n now' n' e e' w forward read first =
    let w1 : World = (materialize cfg s now n e w).1 in
    let c = materialize-Counted cfg s now n e w first in
    let same : c.due ≡ due = some_injective (cc (c.was_due, read)) in
    let at : ℕ = ts (next_run c.next (parse_ts c.due) now) in
    let late : c.due < at = next_run-later c.next c.due now (forward c.next c.parsed) in
    let later : due < at = omega arith in
    (
      (at, later, c.after),
      subst (λ t. HasRun cfg s (parse_ts t) w1.db) same c.run,
      λ second.
          let c' = materialize-Counted cfg s now' n' e' w1 second in
          let same' : c'.due ≡ due = some_injective (cc (c'.was_due, read)) in
          let stuck : at ≡ due = one_time s.id at due w1.db c.after (rw same' at c'.before) in
          omega arith,
    )
