-- ===== src/Store/Transition/Outcome.antt =====
-- What a guarded transition leaves behind, on every path through it (internal/store/jobs.go).
use mathlib.Core.Option
use tenta_cron.Prelude.{
  ℕ, String, ◌≡◌, refl, sym, subst, false, Option, none, some, List, [], ◌∷◌, ◌++◌, ap,
  if◌then◌else◌, arith, str_eq_refl, inl, inr, Option-cases,
}
use tenta_cron.Prelude.Tables.{find_by, update_by, find_by-update_by}
use tenta_cron.Store.Model.{
  State, is_terminal, terminal_state, Error, Detail, Job, Event, Delivery, Database, ts,
}
use tenta_cron.Store.Sql.{
  Env, World, execute, when, commit, fail_if, fail_with, ◌>>◌, ◌>>=◌, statement,
}
use tenta_cron.Store.Sql.Hoare.{
  Post, Post-bind, Post-execute, Post-commit, Post-weaken, Post-when, Post-fail_if, Post-fail_with,
  Post-rolled_back, Post-begin, Post-time_now,
}
use tenta_cron.Store.Transition.{
  transition_guarded, transit, new_delivery, change, current_state, append_event, enqueue_callback,
}

-- The deliveries after a job with this callback URL became terminal.
abbrev pub enqueued : String → State → ℕ → Option String → List Delivery → List Delivery
enqueued id to now none vs = vs
enqueued id to now (some url) vs = vs ++ new_delivery id url to now ∷ []

abbrev pub event_of : String → State → State → Detail → ℕ → Event
event_of id from to detail now = record {
  job_id = id;
  from_state = some from;
  to_state = to;
  detail = detail;
  created_at = ts now;
}

-- The tables after a committed transition of the row `j`.
abbrev pub after : String → State → Detail → ℕ → (Job → Job) → Job → Database → Database
after id to detail now build j d = record d {
  jobs = update_by (λ j. j.id) id (transit to now build) d.jobs;
  events = d.events ++ event_of id j.state to detail now ∷ [];
  deliveries =
      if is_terminal to
      then enqueued id to now (transit to now build j).callback_url d.deliveries
      else d.deliveries;
}

abbrev pub Committed :
    String
    → (State → Option Error)
    → State
    → Detail
    → ℕ
    → (Job → Job)
    → Option Job
    → Database
    → Database
    → Type 0
Committed id guard to detail now build none d d' = ⊥
Committed id guard to detail now build (some j) d d' =
    (is_terminal j.state ≡ false) × (guard j.state ≡ none) × (d' ≡ after id to detail now build j d)

abbrev pub Any : Error → Database → Type 0
Any x d = Unit

current_state-Post :
    (id : String) (d : Database) (e : Env) (w : World)
    → w.db ≡ d
    → Post
        (λ s d'. (d' ≡ d) × (Option.map (λ j. j.state) (find_by (λ j. j.id) id d.jobs) ≡ some s))
        Any
        (current_state id e w)
unfolding current_state statement
current_state-Post id d e w h = ground arith

abbrev pub with_event : String → Option State → State → Detail → ℕ → Database → Database
with_event id from to detail now d = record d {
  events =
      d.events
      ++ record {
        job_id = id;
        from_state = from;
        to_state = to;
        detail = detail;
        created_at = ts now;
      }
        ∷ [];
}

pub append_event-Post :
    (id : String) (from : Option State) (to : State) (detail : Detail) (now : ℕ) (d : Database)
    (e : Env) (w : World)
    → w.db ≡ d
    → Post
        (λ _ d'. d' ≡ with_event id from to detail now d)
        Any
        (append_event id from to detail now e w)
unfolding append_event execute
append_event-Post id from to detail now d e w h = ground arith

abbrev with_callback : String → State → ℕ → Option String → Database → Database
with_callback id to now url d = record d { deliveries = enqueued id to now url d.deliveries }

-- A delivery is queued exactly when the new state is terminal and the job has a URL.
abbrev called_back : String → State → ℕ → Option String → Database → Database
called_back id to now url d = record d {
  deliveries = if is_terminal to then enqueued id to now url d.deliveries else d.deliveries;
}

enqueue_callback-Post :
    (id : String) (to : State) (now : ℕ) (j : Job) (d : Database) (e : Env) (w : World)
    → w.db ≡ d
    → find_by (λ j. j.id) id d.jobs ≡ some j
    → Post
        (λ _ d'. d' ≡ with_callback id to now j.callback_url d)
        Any
        (enqueue_callback id to now e w)
unfolding enqueue_callback ◌>>=◌
enqueue_callback-Post id to now j d e w h f = ground arith

-- The callback is queued exactly when the new state is terminal.
when_terminal-Post :
    (id : String) (to : State) (now : ℕ) (j : Job) (d : Database) (e : Env) (w : World)
    → w.db ≡ d
    → find_by (λ j. j.id) id d.jobs ≡ some j
    → Post
        (λ _ d'. d' ≡ called_back id to now j.callback_url d)
        Any
        (when (is_terminal to) (enqueue_callback id to now) e w)
when_terminal-Post id to now j d e w h f =
    Post-when (λ _ d'. d' ≡ called_back id to now j.callback_url d) Any e _ _ w
      (λ t. rw t (enqueue_callback-Post id to now j d e w h f)) (λ t. rw t h)

module _ (id : String) (guard : State → Option Error) (to : State) (detail : Detail)
    (build : Job → Job) (keep : (j : Job) → (build j).id ≡ j.id) where
  abbrev moved : ℕ → Database → Database
  moved now d = record d { jobs = update_by (λ j. j.id) id (transit to now build) d.jobs }

  pub found-moved :
      (now : ℕ) (d : Database) (j : Job)
      → find_by (λ j. j.id) id d.jobs ≡ some j
      → find_by (λ j. j.id) id (moved now d).jobs ≡ some (transit to now build j)
  found-moved now d j f = rw (
    find_by-update_by (λ j. j.id) id id (transit to now build) d.jobs (λ j. keep _),
    f,
    str_eq_refl id,
  )

  write-Post :
      (now : ℕ) (d : Database) (j : Job) (e : Env) (w : World)
      → find_by (λ j. j.id) id d.jobs ≡ some j
      → w.db ≡ d
      → Post
          (λ _ d'. d' ≡ after id to detail now build j d)
          Any
          ((execute (moved now)
              >> (append_event id (some j.state) to detail now
                  >> (when (is_terminal to) (enqueue_callback id to now) >> commit d)))
            e w)
  write-Post now d j e w f h =
      let Q : Unit → Database → Type 0 = λ _ d'. d' ≡ after id to detail now build j d in
      let mid : Database = with_event id (some j.state) to detail now (moved now d) in
      Post-bind (λ _ d'. d' ≡ moved now d) Q Any e (execute (moved now)) _ w
        (Post-execute (λ _ d'. d' ≡ moved now d) Any e (moved now) w (ap (moved now) h) tt)
        λ _ w1 h1.
          Post-bind (λ _ d'. d' ≡ mid) Q Any e (append_event id (some j.state) to detail now) _ w1
            (append_event-Post id (some j.state) to detail now (moved now d) e w1 h1)
            λ _ w2 h2.
              Post-bind Q Q Any e (when (is_terminal to) (enqueue_callback id to now)) _ w2
                (when_terminal-Post id to now (transit to now build j) mid e w2 h2
                  (found-moved now d j f))
                λ _ w3 h3. Post-commit Q Any e d w3 h3 tt

  abbrev Done : ℕ → Database → Unit {0} → Database → Type 0
  Done now d _ d' = Committed id guard to detail now build (find_by (λ j. j.id) id d.jobs) d d'

  abbrev Row : ℕ → Database → Job → Unit {0} → Database → Type 0
  Row now d j _ d' = Committed id guard to detail now build (some j) d d'

  -- From an error on, nothing is claimed of the tables: they are rolled back.
  checked-Post :
      (now : ℕ) (d : Database) (j : Job) (e : Env) (w : World)
      → find_by (λ j. j.id) id d.jobs ≡ some j
      → w.db ≡ d
      → Post (Row now d j) Any (
          (fail_if (is_terminal j.state) terminal_state
              >> (fail_with (guard j.state)
                  >> (execute (moved now)
                      >> (append_event id (some j.state) to detail now
                          >> (when (is_terminal to) (enqueue_callback id to now) >> commit d)))))
            e w)
  checked-Post now d j e w f h =
      let live : Unit → Database → Type 0 = λ _ d'. (d' ≡ d) × (is_terminal j.state ≡ false) in
      let free : Unit → Database → Type 0 = λ _ d'. (d' ≡ d) × (guard j.state ≡ none) in
      Post-bind live (Row now d j) Any e (fail_if (is_terminal j.state) terminal_state) _ w
        (Post-fail_if live Any e _ _ w (λ t. (h, t)) tt)
        λ _ w1 h1.
          Post-bind free (Row now d j) Any e (fail_with (guard j.state)) _ w1
            (Post-fail_with free Any e _ w1 (λ g. (h1.0, g)) (λ x. tt))
            λ _ w2 h2.
              Post-weaken _ (Row now d j) Any _ (write-Post now d j e w2 f h2.0)
                (λ _ d' p. (h1.1, h2.1, p))

  change-Post :
      (now : ℕ) (d : Database) (e : Env) (w : World)
      → w.db ≡ d
      → Post (Done now d) Any (change id guard to detail build now d e w)
  unfolding change
  change-Post now d e w h =
      Post-bind
        (λ s d'. (d' ≡ d) × (Option.map (λ j. j.state) (find_by (λ j. j.id) id d.jobs) ≡ some s))
        (Done now d) Any e (current_state id) _ w (current_state-Post id d e w h)
        λ s w1 h1. elim (Option-cases (find_by (λ j. j.id) id d.jobs)) [
          | inl f ↦ cc (rw f at h1.1)
          | inr (j, f) ↦
              let same : s ≡ j.state = cc (rw f at h1.1) in
              rw same (
                Post-weaken (Row now d j) (Done now d) Any _ (checked-Post now d j e w1 f h1.0)
                  (λ _ d' p. subst (λ o. Committed id guard to detail now build o d d') (sym f) p))
        ]

  -- For a build that keeps the id, a guarded transition that returns no error found a live row that
  -- its guard allows, and changed the row, appended the event and queued the callback together; one
  -- that returns an error left the tables as they were.
  pub transition_guarded-Post :
      (e : Env) (w : World)
      → Post
          (Done (e.clock w.step) w.db)
          (λ x d'. d' ≡ w.db)
          (transition_guarded id guard to detail build e w)
  unfolding transition_guarded
  transition_guarded-Post e w =
      let Q : Unit → Database → Type 0 = Done (e.clock w.step) w.db in
      let Same : Error → Database → Type 0 = λ x d'. d' ≡ w.db in
      Post-time_now Q Same e _ w (
        Post-begin Q Same e _ _
          (λ w1 h1.
            Post-rolled_back Q Same e w.db _ w1 (change-Post (e.clock w.step) w.db e w1 h1)
              (λ x. refl))
          refl)
