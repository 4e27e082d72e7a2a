-- ===== src/Store/Invariant/Transit.antt =====
-- A committed transition keeps the invariant, whichever columns it sets (internal/store/jobs.go).

use tenta_cron.Prelude.{
  ℕ, String, ◌≡◌, refl, sym, ap, ◌∙◌, true, false, ◌&&◌, Option, none, some, List, if◌then◌else◌,
  arith, is_some, str_eq, str_eq_refl, str_eq→≡, Bool-cases, inl, inr, eq_iff,
}
use tenta_cron.Prelude.Tables.{
  find_by, find_by-update_by, find_by-append_one, UniqueBy-update_by, count_where-update_by,
}
use tenta_cron.Store.Model.{State, is_terminal, Error, Detail, Job, Delivery, Database}
use tenta_cron.Store.Sql.Hoare.{Post-tables}
use tenta_cron.Store.Create.{has_key}
use tenta_cron.Store.Transition.{transition_guarded, transit, new_delivery}
use tenta_cron.Store.Transition.Outcome.{
  Committed, after, enqueued, event_of, transition_guarded-Post,
}
use tenta_cron.Store.Invariant.Keeps.{Keeps}
use tenta_cron.Store.Invariant.{
  legal, RowIsValid, history, Linked, LinkedAt, IsValid, history-append_one, PathFrom-append_one,
  end_of-append_one,
}

-- What every method's columns respect: the key, the state that the transition sets and the URL.
pub record IsBuild (build : Job → Job) : Type 0 where
  pub same_id : (j : Job) → (build j).id ≡ j.id
  pub same_state : (j : Job) → (build j).state ≡ j.state
  pub same_client : (j : Job) → (build j).client ≡ j.client
  pub same_key : (j : Job) → (build j).idempotency_key ≡ j.idempotency_key
  pub same_url : (j : Job) → (build j).callback_url ≡ j.callback_url

-- A transition that the diagram has and that leaves a valid row.
pub record IsSound (guard : State → Option Error) (to : State) (build : Job → Job) : Type 0 where
  pub shape : IsBuild build
  pub edge : (s : State) → is_terminal s ≡ false → guard s ≡ none → legal s to ≡ true
  pub row :
      (now : ℕ) (j : Job)
      → is_terminal j.state ≡ false
      → guard j.state ≡ none
      → RowIsValid j
      → RowIsValid (transit to now build j)

delivery-other :
    (k id : String) (to : State) (now : ℕ) (url : Option String) (vs : List Delivery)
    → str_eq k id ≡ false
    → find_by (λ v. v.job_id) k (if is_terminal to then enqueued id to now url vs else vs)
      ≡ find_by (λ v. v.job_id) k vs
delivery-other k id to now none vs ne = ground arith
delivery-other k id to now (some url) vs ne = elim (Bool-cases (is_terminal to)) [
  | inl t ↦
      rw (t, find_by-append_one (λ v. v.job_id) k vs (new_delivery id url to now))
        (ground (arith, eq_iff k id, eq_iff id k))
  | inr t ↦ rw t
]

-- A first delivery is there exactly when it was asked for.
delivery_self :
    (id : String) (to : State) (now : ℕ) (url : Option String) (vs : List Delivery)
    → is_some (find_by (λ v. v.job_id) id vs) ≡ false
    → is_some
        (find_by (λ v. v.job_id) id (if is_terminal to then enqueued id to now url vs else vs))
      ≡ (is_terminal to && is_some url)
delivery_self id to now none vs h = ground arith
delivery_self id to now (some url) vs h = elim (Bool-cases (is_terminal to)) [
  | inl t ↦
      rw (t, find_by-append_one (λ v. v.job_id) id vs (new_delivery id url to now))
        (ground (arith, str_eq_refl id))
  | inr t ↦ rw t h
]

module _ (id : String) (guard : State → Option Error) (to : State) (detail : Detail)
    (build : Job → Job) (sound : IsSound guard to build) where
  other-Linked :
      (now : ℕ) (j : Job) (d : Database) (k : String)
      → str_eq k id ≡ false
      → LinkedAt k d
      → LinkedAt k (after id to detail now build j d)
  other-Linked now j d k ne l =
      rw
        (
          find_by-update_by (λ j. j.id) id k (transit to now build) d.jobs
              (λ j. sound.shape.same_id _),
          history-append_one,
          delivery-other k id to now (transit to now build j).callback_url d.deliveries ne,
          ne,
        )
        (let ne' : str_eq id k ≡ false = ground (arith, eq_iff k id, eq_iff id k) in rw ne' l)

  self-Linked :
      (now : ℕ) (j : Job) (d : Database)
      → find_by (λ j. j.id) id d.jobs ≡ some j
      → is_terminal j.state ≡ false
      → guard j.state ≡ none
      → LinkedAt id d
      → LinkedAt id (after id to detail now build j d)
  self-Linked now j d f t g l =
      let vs : Option Delivery = find_by (λ v. v.job_id) id d.deliveries in
      let (valid, path, ends, called) =
        (let l' : Linked (some j) (history id d.events) vs = (rw f at l) in l') in
      let none_yet : is_some vs ≡ false = called ∙ (rw t) in
      rw
        (
          find_by-update_by (λ j. j.id) id id (transit to now build) d.jobs
              (λ j. sound.shape.same_id _),
          history-append_one,
          f,
          str_eq_refl id,
        )
        (
          sound.row now j t g valid,
          PathFrom-append_one none (history id d.events) (event_of id j.state to detail now) path
              (sym ends) (rw ends (sound.edge j.state t g)),
          end_of-append_one none (history id d.events) (event_of id j.state to detail now)
              ∙ ap some (sym (sound.shape.same_state _)),
          delivery_self id to now (transit to now build j).callback_url d.deliveries none_yet
              ∙ rw (sound.shape.same_state _),
        )

  same_test :
      (client key : String) (now : ℕ) (j : Job)
      → has_key client key (transit to now build j) ≡ has_key client key j
  same_test client key now j = rw (sound.shape.same_client _, sound.shape.same_key _)

  pub Committed-IsValid :
      (now : ℕ) (o : Option Job) (d d' : Database)
      → find_by (λ j. j.id) id d.jobs ≡ o
      → Committed id guard to detail now build o d d'
      → IsValid d
      → IsValid d'
  Committed-IsValid now none d d' f c v = elim c [ ]
  Committed-IsValid now (some j) d d' f c v = record {
    at = λ k. rw c.2 (elim (Bool-cases (str_eq k id)) [
      | inl e ↦ rw (str_eq→≡ k id e) (self-Linked now j d f c.0 c.1 (v.at id))
      | inr ne ↦ other-Linked now j d k ne (v.at k)
    ]);
    unique = rw c.2 (
        UniqueBy-update_by (λ j. j.id) id (transit to now build) d.jobs (λ j. sound.shape.same_id _)
          v.unique);
    once = λ client key.
        rw
          (
            c.2,
            count_where-update_by (λ j. j.id) (has_key client key) id (transit to now build) d.jobs
                (λ j. same_test client key now j),
          )
          (v.once client key);
  }

  pub transition_guarded-Keeps : Keeps (transition_guarded id guard to detail build)
  transition_guarded-Keeps = record {
    keeps = λ e w v.
        Post-tables _ (λ x d. d ≡ w.db) IsValid (transition_guarded id guard to detail build e w)
          (transition_guarded-Post id guard to detail build sound.shape.same_id e w)
          (λ _ d c. Committed-IsValid (e.clock w.step) _ w.db d refl c v) (λ x d same. rw same v);
  }
