-- ===== src/Store/Transition/Total.antt =====
-- A transition that its guard allows goes through where no statement fails (internal/store/jobs.go).

use tenta_cron.Prelude.{ℕ, ◌+◌, String, ◌≡◌, refl, false, Option, none, some, inl, inr, Bool-cases}
use tenta_cron.Prelude.Tables.{find_by, update_by}
use tenta_cron.Store.Model.{State, is_terminal, Error, Detail, Job, Delivery, Database}
use tenta_cron.Store.Sql.{
  Result, ok, err, Env, World, M, when, commit, ◌>>◌, ◌>>=◌, rollback, clean,
}
use tenta_cron.Store.Transition.{
  transition_guarded, transit, change, current_state, append_event, enqueue_callback, enqueue,
}
use tenta_cron.Store.Transition.Outcome.{
  found-moved, after, with_event, Committed, transition_guarded-Post,
}
use tenta_cron.Store.Sql.Hoare.{Post}
use tenta_cron.Store.Invariant.{Linked, IsValid, history}

clean_ok :
    (cleanup : M (Unit {0})) (e : Env) (r : Result (Unit {0}) × World)
    → r.0 ≡ ok tt
    → (clean cleanup e r).0 ≡ ok tt
clean_ok cleanup e (ok a, w) h = h
clean_ok cleanup e (err x, w) h = cc

module _ (e : Env) (calm : (n : ℕ) → e.fails n ≡ false) where
  enqueue_total :
      (id : String) (to : State) (now : ℕ) (u : Option String) (d : Database) (w : World)
      → find_by (λ v. v.job_id) id w.db.deliveries ≡ none
      → ((enqueue id to now u >> commit d) e w).0 ≡ ok tt
  unfolding ◌>>=◌
  enqueue_total id to now none d w v = rw calm refl
  enqueue_total id to now (some url) d w v = rw (calm, v, calm) refl

  callback_total :
      (id : String) (to : State) (now : ℕ) (j : Job) (d : Database) (w : World)
      → find_by (λ j. j.id) id w.db.jobs ≡ some j
      → find_by (λ v. v.job_id) id w.db.deliveries ≡ none
      → ((when (is_terminal to) (enqueue_callback id to now) >> commit d) e w).0 ≡ ok tt
  unfolding enqueue_callback ◌>>=◌
  callback_total id to now j d w f v = elim (Bool-cases (is_terminal to)) [
    | inl t ↦
        rw (t, calm, f)
          (enqueue_total id to now j.callback_url d (record w { step = w.step + 1 }) v)
    | inr t ↦ rw (t, calm) refl
  ]

  transition_guarded_total :
      (id : String) (guard : State → Option Error) (to : State) (detail : Detail)
      (build : Job → Job) (keep : (j : Job) → (build j).id ≡ j.id) (j : Job) (w : World)
      → find_by (λ j. j.id) id w.db.jobs ≡ some j
      → is_terminal j.state ≡ false
      → guard j.state ≡ none
      → find_by (λ v. v.job_id) id w.db.deliveries ≡ none
      → (transition_guarded id guard to detail build e w).0 ≡ ok tt
  unfolding transition_guarded change current_state append_event ◌>>=◌
  transition_guarded_total id guard to detail build keep j w f live free v =
      let now : ℕ = e.clock w.step in
      let d : Database = record w.db {
        jobs = update_by (λ j. j.id) id (transit to now build) w.db.jobs;
      } in
      let w1 : World = record {
        db = with_event id (some j.state) to detail now d;
        step = w.step + 1 + 1 + 1 + 1 + 1;
      } in
      rw (calm, calm, f, live, free, calm, calm)
        (clean_ok (rollback w.db) e
          ((when (is_terminal to) (enqueue_callback id to now) >> commit w.db) e w1)
          (callback_total id to now (transit to now build j) w.db w1
            (found-moved id guard to detail build keep now w.db j f) v))

-- A live job has no delivery in valid tables.
no_delivery :
    (id : String) (d : Database) (j : Job)
    → IsValid d
    → find_by (λ j. j.id) id d.jobs ≡ some j
    → is_terminal j.state ≡ false
    → find_by (λ v. v.job_id) id d.deliveries ≡ none
no_delivery id d j v f live = go (find_by (λ v. v.job_id) id d.deliveries) (rw f at (v.at id))
  where
    go : (o : Option Delivery) → Linked (some j) (history id d.events) o → o ≡ none
    go none l = refl
    go (some x) l = cc (rw live at l.3)

settled :
    (Q : Database → Type 0) (r : Result (Unit {0}) × World)
    → r.0 ≡ ok tt
    → Post (λ _ d. Q d) (λ x d. Unit {0}) r
    → (r.0 ≡ ok tt) × Q r.1.db
settled Q (ok a, w) h p = (h, p)
settled Q (err x, w) h p = cc

-- Where no statement fails, a transition of a live job that its guard allows returns no error, and
-- it changes the row, appends the event and queues the callback of a terminal job that has a URL.
pub transition_guarded_exact :
    (id : String) (guard : State → Option Error) (to : State) (detail : Detail) (build : Job → Job)
    → ((j : Job) → (build j).id ≡ j.id)
    → (e : Env) (w : World) (j : Job) → IsValid w.db
    → ((n : ℕ) → e.fails n ≡ false)
    → find_by (λ j. j.id) id w.db.jobs ≡ some j
    → is_terminal j.state ≡ false
    → guard j.state ≡ none
    → ((transition_guarded id guard to detail build e w).0 ≡ ok tt)
      × ((transition_guarded id guard to detail build e w).1.db
          ≡ after id to detail (e.clock w.step) build j w.db)
transition_guarded_exact id guard to detail build keep e w j v calm f live free =
    settled (λ d. d ≡ after id to detail (e.clock w.step) build j w.db)
      (transition_guarded id guard to detail build e w)
      (transition_guarded_total e calm id guard to detail build keep j w f live free
        (no_delivery id w.db j v f live))
      (effect (transition_guarded id guard to detail build e w)
        (transition_guarded-Post id guard to detail build keep e w))
  where
    effect :
        (r : Result (Unit {0}) × World)
        → Post
            (λ _ d.
              Committed id guard to detail
                (e.clock w.step)
                build
                (find_by (λ j. j.id) id w.db.jobs)
                w.db
                d)
            (λ x d. d ≡ w.db)
            r
        → Post (λ _ d. d ≡ after id to detail (e.clock w.step) build j w.db) (λ x d. Unit {0}) r
    effect (ok a, w1) p = (rw f at p).2
    effect (err x, w1) p = tt
