-- ===== src/Runs/Finality.antt =====
-- A terminal job is never touched again: late workers, stale candidates, overlapping poll ticks and
-- recovery all leave its row as it is, until retention deletes it (internal/store/jobs.go).

use tenta_cron.Prelude.{
  ℕ, String, ◌≡◌, refl, subst, ap, Bool, true, false, not, Option, none, some, List, [], ◌∷◌, arith,
  All, str_eq, str_eq→≡, Bool-cases, inl, inr, suc,
}
use tenta_cron.Prelude.Tables.{find_by, update_by, find_by-update_by, find_by-append_one}
use tenta_cron.Store.Model.{
  State, received, resolving, awaiting_target, failed, is_terminal, same_state, Error, Detail, Job,
  Database, Submission,
}
use tenta_cron.Store.Sql.{ok, Env, World, statement}
use tenta_cron.Store.Sql.Hoare.{Post-tables, Post-statement, Post-execute}
use tenta_cron.Store.Sql.Holds.{Holds, Holds-pure, Holds-time_now, Holds-bind, holds_rules}
use tenta_cron.Store.Transition.{
  transition_guarded, transition, transit, from_guard, set_resolved, mark_awaiting_target,
  mark_completed, mark_failed, mark_cancelled, requeue,
}
use tenta_cron.Store.Transition.Outcome.{Committed, transition_guarded-Post}
use tenta_cron.Store.Create.{Stored, created, replayed, last_seq, new_row, create_job_once}
use tenta_cron.Store.Create.Outcome.{Accepted, Same, create_job_once-Post}
use tenta_cron.Store.Claim.{
  ClaimPolicy, claim_received, claim_poll_tick, claim_as, claim_one, update_if, update_one,
  lease_row, is_listed, claim_row, exhausted, exhausted_row,
}
use tenta_cron.Store.Claim.Outcome.{
  Claimed, Ticked, claim_received-Post, claim_poll_tick-Post, ok_injective,
}
use tenta_cron.Store.Recovery.{reschedule_poll}
use tenta_cron.Store.Retention.{without, delete_job_chunk}
use tenta_cron.Store.Invariant.Retention.{find_by-kept}
use tenta_cron.Store.Deliveries.{record_attempt}
use tenta_cron.Runs.{
  Call, accept, claim, resolve, park, complete, fail, cancel, retry_later, put_back, reschedule,
  delete, attempted, perform, run,
}

-- The call does not delete the job with this id.
abbrev pub spares : String → Call → Bool
spares k (delete ids) = not (is_listed k ids)
spares k _ = true

module _ (k : String) (z : Job) (over : is_terminal z.state ≡ true) where
  abbrev Stays : Database → Type 0
  Stays d = find_by (λ j. j.id) k d.jobs ≡ some z

  -- An update of a row that is not `z` misses it.
  spared :
      (id : String) (f : Job → Job) (d : Database) (j : Job)
      → ((j : Job) → (f j).id ≡ j.id)
      → find_by (λ j. j.id) id d.jobs ≡ some j
      → is_terminal j.state ≡ false
      → Stays d
      → find_by (λ j. j.id) k (update_by (λ j. j.id) id f d.jobs) ≡ some z
  spared id f d j keep g live s = elim (Bool-cases (str_eq k id)) [
    | inl e ↦
        let same : find_by (λ j. j.id) id d.jobs ≡ some z = rw (← str_eq→≡ k id e) s in
        let one : j ≡ z = cc in cc (rw one at live)
    | inr e ↦ rw (find_by-update_by (λ j. j.id) id k f d.jobs keep, e) s
  ]

  transition_guarded-Stays :
      (id : String) (guard : State → Option Error) (to : State) (detail : Detail)
      (build : Job → Job)
      → ((j : Job) → (build j).id ≡ j.id)
      → Holds Stays (transition_guarded id guard to detail build)
  transition_guarded-Stays id guard to detail build keep = record {
    keeps = λ e w s.
        Post-tables
          (λ _ d.
            Committed id guard to detail (e.clock w.step) build (find_by (λ j. j.id) id w.db.jobs)
              w.db d)
          (λ x d. d ≡ w.db) Stays (transition_guarded id guard to detail build e w)
          (transition_guarded-Post id guard to detail build keep e w)
          (λ _ d c. go (e.clock w.step) (find_by (λ j. j.id) id w.db.jobs) w.db d refl s c)
          (λ x d same. rw same s);
  }
    where
      go :
          (now : ℕ) (o : Option Job) (d d' : Database)
          → find_by (λ j. j.id) id d.jobs ≡ o
          → Stays d
          → Committed id guard to detail now build o d d'
          → Stays d'
      go now none d d' g s c = elim c [ ]
      go now (some j) d d' g s c =
          rw c.2 (spared id (transit to now build) d j (λ j. keep _) g c.0 s)

  create_job_once-Stays :
      (s : Submission) (queue_cap : ℕ) → Holds Stays (create_job_once s queue_cap)
  create_job_once-Stays t queue_cap = record {
    keeps = λ e w s.
        Post-tables (Accepted t queue_cap w.db) (Same w.db) Stays (create_job_once t queue_cap e w)
          (create_job_once-Post t queue_cap e w) (λ r d a. go w.db s r d a) (λ x d same. rw same s);
  }
    where
      go :
          (d : Database)
          → Stays d
          → (r : Stored) (d' : Database) → Accepted t queue_cap d r d'
          → Stays d'
      go d s (created u now) d' a =
          rw
            (
              a.4,
              find_by-append_one (λ j. j.id) k d.jobs (new_row t now (suc (last_seq d.jobs))),
              s,
            )
            refl
      go d s (replayed j) d' a = rw a.3 s

  claim_received-Stays :
      (id client : String) (ceiling now : ℕ) → Holds Stays (claim_received id client ceiling now)
  claim_received-Stays id client ceiling now = record {
    keeps = λ e w s.
        Post-tables (Claimed id client ceiling now (find_by (λ j. j.id) id w.db.jobs) w.db)
          (Same w.db) Stays (claim_received id client ceiling now e w)
          (claim_received-Post id client ceiling now e w)
          (λ b d c. go (find_by (λ j. j.id) id w.db.jobs) w.db d refl s b c)
          (λ x d same. rw same s);
  }
    where
      go :
          (o : Option Job) (d d' : Database)
          → find_by (λ j. j.id) id d.jobs ≡ o
          → Stays d
          → (b : Bool) → Claimed id client ceiling now o d b d'
          → Stays d'
      go none d d' g s false c = rw c s
      go none d d' g s true c = elim c [ ]
      go (some j) d d' g s false c = rw c s
      go (some j) d d' g s true c =
          let live : is_terminal j.state ≡ false = ground arith in
          rw c.1 (spared id (transit resolving now claim_row) d j (λ j. refl) g live s)

  claim_poll_tick-Stays :
      (id : String) (prev : Option ℕ) (lease now : ℕ)
      → Holds Stays (claim_poll_tick id prev lease now)
  claim_poll_tick-Stays id prev lease now = record {
    keeps = λ e w s.
        Post-tables (Ticked id prev lease now (find_by (λ j. j.id) id w.db.jobs) w.db) (Same w.db)
          Stays (claim_poll_tick id prev lease now e w) (claim_poll_tick-Post id prev lease now e w)
          (λ b d c. go (find_by (λ j. j.id) id w.db.jobs) w.db d refl s b c)
          (λ x d same. rw same s);
  }
    where
      go :
          (o : Option Job) (d d' : Database)
          → find_by (λ j. j.id) id d.jobs ≡ o
          → Stays d
          → (b : Bool) → Ticked id prev lease now o d b d'
          → Stays d'
      go none d d' g s false c = rw c s
      go none d d' g s true c = elim c [ ]
      go (some j) d d' g s false c = rw c s
      go (some j) d d' g s true c =
          let live : is_terminal j.state ≡ false = rw c.0 refl in
          rw c.2 (spared id (lease_row lease now) d j (λ j. refl) g live s)

  fail_exhausted-Stays :
      (id : String) (attempts now : ℕ)
      → Holds Stays (transition id (some received) failed exhausted (exhausted_row attempts now))
  unfolding transition
  fail_exhausted-Stays id attempts now =
      transition_guarded-Stays id (from_guard (some received)) failed exhausted
        (exhausted_row attempts now) (λ j. refl)

  claim_as-Stays :
      (s : State) (c : Job) (now : ℕ) (policy : ClaimPolicy) → Holds Stays (claim_as s c now policy)
  unfolding claim_as
  claim_as-Stays received c now policy =
      search (holds_rules, fail_exhausted-Stays, claim_received-Stays)
  claim_as-Stays awaiting_target c now policy = claim_poll_tick-Stays _ _ _ _
  claim_as-Stays _ c now policy = Holds-pure false

  claim_one-Stays :
      (c : Job) (now : ℕ) (policy : ClaimPolicy) → Holds Stays (claim_one c now policy)
  unfolding claim_one
  claim_one-Stays c now policy = claim_as-Stays c.state c now policy

  update_if-Stays :
      (f : Job → Job) (id : String) (d : Database) (o : Option Job) (n : ℕ) (d' : Database)
      → ((j : Job) → (f j).id ≡ j.id)
      → find_by (λ j. j.id) id d.jobs ≡ o
      → Stays d
      → update_if (λ j. same_state j.state awaiting_target) f id d o ≡ (n, d')
      → Stays d'
  update_if-Stays f id d none n d' keep g s h = subst Stays (ap (λ (p : ℕ × Database). p.1) h) s
  update_if-Stays f id d (some j) n d' keep g s h =
      elim (Bool-cases (same_state j.state awaiting_target)) [
        | inl t ↦
            subst Stays (ap (λ (p : ℕ × Database). p.1) (rw t at h))
              (spared id f d j keep g (ground arith) s)
        | inr t ↦ subst Stays (ap (λ (p : ℕ × Database). p.1) (rw t at h)) s
      ]

  reschedule_poll-Stays : (id : String) (at : ℕ) → Holds Stays (reschedule_poll id at)
  unfolding reschedule_poll
  reschedule_poll-Stays id at =
      Holds-time_now _ λ now. Holds-bind _ _ (moved now) (λ n. Holds-pure _)
    where
      moved :
          (now : ℕ)
          → Holds Stays (
              statement (λ d.
                ok (update_one (λ j. same_state j.state awaiting_target) (lease_row at now) id d)))
      moved now = record {
        keeps = λ e w s.
            Post-tables (λ n d. Stays d) (λ x d. Stays d) Stays _
              (Post-statement (λ n d. Stays d) (λ x d. Stays d) e _ w
                (λ n d h.
                  update_if-Stays (lease_row at now) id w.db (find_by (λ j. j.id) id w.db.jobs) n d
                    (λ j. refl) refl s (ok_injective h))
                (λ x. s))
              (λ n d h. h) (λ x d h. h);
      }

  delete_job_chunk-Stays :
      (ids : List String) → is_listed k ids ≡ false → Holds Stays (delete_job_chunk ids)
  unfolding delete_job_chunk
  delete_job_chunk-Stays ids out = record {
    keeps = λ e w s.
        Post-tables (λ _ d. Stays d) (λ x d. Stays d) Stays _
          (Post-execute (λ _ d. Stays d) (λ x d. Stays d) e (without ids) w
            (rw (find_by-kept (λ j. j.id) ids k w.db.jobs, out) s) s)
          (λ _ d h. h) (λ x d h. h);
  }

  record_attempt-Stays :
      (id : String) (prev : ℕ) (code : Option ℕ) (last_error : Option String) (success : Bool)
      (next : Option ℕ)
      → Holds Stays (record_attempt id prev code last_error success next)
  unfolding record_attempt
  record_attempt-Stays id prev code last_error success next = Holds-time_now _ λ now. record {
    keeps = λ e w s.
        Post-tables (λ _ d. Stays d) (λ x d. Stays d) Stays _
          (Post-statement (λ _ d. Stays d) (λ x d. Stays d) e _ w (λ a d h. ground (arith, h, s))
            (λ x. s))
          (λ _ d h. h) (λ x d h. h);
  }

  perform-Stays : (c : Call) → spares k c ≡ true → Holds Stays (perform c)
  unfolding perform set_resolved mark_awaiting_target mark_completed mark_failed mark_cancelled
      requeue transition
  perform-Stays (accept s queue_cap) h =
      Holds-bind _ _ (create_job_once-Stays s queue_cap) (λ _. Holds-pure tt)
  perform-Stays (claim c now policy) h =
      Holds-bind _ _ (claim_one-Stays c now policy) (λ _. Holds-pure tt)
  perform-Stays (resolve id payload detail) h = transition_guarded-Stays _ _ _ _ _ (λ j. refl)
  perform-Stays (park id target_job code body first_poll deadline) h =
      transition_guarded-Stays _ _ _ _ _ (λ j. refl)
  perform-Stays (complete id code body file detail) h =
      Holds-time_now _ (λ now. transition_guarded-Stays _ _ _ _ _ (λ j. refl))
  perform-Stays (fail id code message) h =
      Holds-time_now _ (λ now. transition_guarded-Stays _ _ _ _ _ (λ j. refl))
  perform-Stays (cancel id detail) h =
      Holds-time_now _ (λ now. transition_guarded-Stays _ _ _ _ _ (λ j. refl))
  perform-Stays (retry_later id next detail) h = transition_guarded-Stays _ _ _ _ _ (λ j. refl)
  perform-Stays (put_back id detail) h = transition_guarded-Stays _ _ _ _ _ (λ j. refl)
  perform-Stays (reschedule id at) h =
      Holds-bind _ _ (reschedule_poll-Stays id at) (λ _. Holds-pure tt)
  perform-Stays (delete ids) h = delete_job_chunk-Stays ids (ground arith)
  perform-Stays (attempted id prev code last_error success next) h =
      record_attempt-Stays _ _ _ _ _ _

-- A run in which retention does not delete a terminal job leaves its row exactly as it was.
pub terminal-stays :
    (k : String) (z : Job) (cs : List (Call × Env)) (w : World)
    → is_terminal z.state ≡ true
    → find_by (λ j. j.id) k w.db.jobs ≡ some z
    → All (λ (p : Call × Env). spares k p.0 ≡ true) cs
    → find_by (λ j. j.id) k (run cs w).db.jobs ≡ some z
unfolding run
terminal-stays k z [] w over h a = h
terminal-stays k z ((c, e) ∷ cs) w over h a =
    terminal-stays k z cs _ over ((perform-Stays k z over c a.0).keeps e w h) a.1
