-- ===== src/Store/Invariant/Recovery.antt =====
-- What restarts and sweeps put back keeps the tables valid (internal/store/jobs.go).
use tenta_cron.Prelude.{
  ℕ, String, ◌≡◌, refl, ap, ◌∙◌, subst, true, Option, none, some, List, [], ◌∷◌, arith, sym,
  Bool-cases, inl, inr,
}
use tenta_cron.Prelude.Tables.{find_by}
use tenta_cron.Store.Model.{State, received, awaiting_target, same_state, Detail, Job, Database}
use tenta_cron.Store.Sql.{ok, statement}
use tenta_cron.Store.Sql.Hoare.{Post-statement, Post-tables}
use tenta_cron.Store.Transition.{transition, requeue_row}
use tenta_cron.Store.Claim.{update_one, update_if, lease_row}
use tenta_cron.Store.Recovery.{
  requeue_all, recover_in_flight, rescue_stuck, reschedule_poll, reset_from, reset_poll_schedules,
}
use tenta_cron.Store.Claim.Outcome.{ok_injective}
use tenta_cron.Store.Invariant.{RowIsValid, IsValid}
use tenta_cron.Store.Invariant.Keeps.{Keeps, keeps_rules}
use tenta_cron.Store.Sql.Holds.{Holds-bind, Holds-pure, Holds-time_now}
use tenta_cron.Store.Invariant.Transit.{transition_guarded-Keeps}
use tenta_cron.Store.Invariant.Methods.{requeue-IsSound}
use tenta_cron.Store.Invariant.Touch.{touched-IsValid}
use tenta_cron.Store.Invariant.Claim.{lease-IsBuild}

abbrev state_or : Option Job → State
state_or none = received
state_or (some j) = j.state

pub requeue_one-Keeps :
    (id : String) (detail : Detail) → Keeps (transition id none received detail (requeue_row none))
unfolding transition
requeue_one-Keeps id detail = transition_guarded-Keeps id _ received detail _ (requeue-IsSound none)

pub requeue_all-Keeps : (detail : Detail) (ids : List String) → Keeps (requeue_all detail ids)
unfolding requeue_all
requeue_all-Keeps detail [] = Holds-pure tt
requeue_all-Keeps detail (id ∷ ids) =
    Holds-bind _ _ (requeue_one-Keeps id detail) (λ _. requeue_all-Keeps detail ids)

-- Recovery after a restart keeps the tables valid, wherever it stops.
pub recover_in_flight-Keeps : Keeps recover_in_flight
unfolding recover_in_flight
recover_in_flight-Keeps = search (keeps_rules, requeue_all-Keeps)

pub rescue_stuck-Keeps : (cutoff_for : String → ℕ) → Keeps (rescue_stuck cutoff_for)
unfolding rescue_stuck
rescue_stuck-Keeps cutoff_for = search (keeps_rules, requeue_all-Keeps)

lease_valid :
    (at now : ℕ) (j : Job)
    → same_state j.state awaiting_target ≡ true
    → RowIsValid j
    → RowIsValid (lease_row at now j)
lease_valid at now j s r = ground arith

pub reschedule_poll-Keeps : (id : String) (at : ℕ) → Keeps (reschedule_poll id at)
unfolding reschedule_poll
reschedule_poll-Keeps id at =
    Holds-time_now _ λ now. Holds-bind _ _ (update-Keeps now) (λ n. Holds-pure _)
  where
    same :
        (x j : Job) (d : Database)
        → find_by (λ j. j.id) id d.jobs ≡ some x
        → find_by (λ j. j.id) id d.jobs ≡ some j
        → same_state j.state awaiting_target ≡ true
        → same_state x.state awaiting_target ≡ true
    same x j d g f t = subst (λ y. same_state (state_or y) awaiting_target ≡ true) (sym f ∙ g) t

    go :
        (now : ℕ) (o : Option Job) (d : Database) (n : ℕ) (d' : Database)
        → find_by (λ j. j.id) id d.jobs ≡ o
        → IsValid d
        → update_if (λ j. same_state j.state awaiting_target) (lease_row at now) id d o ≡ (n, d')
        → IsValid d'
    go now none d n d' f v h = subst IsValid (ap (λ (p : ℕ × Database). p.1) h) v
    go now (some j) d n d' f v h = elim (Bool-cases (same_state j.state awaiting_target)) [
      | inl t ↦ subst IsValid (ap (λ (p : ℕ × Database). p.1) (rw t at h)) (
          touched-IsValid id (lease_row at now) (lease-IsBuild at now) d
            (λ x g r. lease_valid at now x (same x j d g f t) r) v)
      | inr t ↦ subst IsValid (ap (λ (p : ℕ × Database). p.1) (rw t at h)) v
    ]

    update-Keeps :
        (now : ℕ)
        → Keeps (
            statement (λ d.
              ok (update_one (λ j. same_state j.state awaiting_target) (lease_row at now) id d)))
    update-Keeps now = record {
      keeps = λ e w v.
          Post-tables (λ n d. IsValid d) (λ x d. IsValid d) IsValid _
            (Post-statement (λ n d. IsValid d) (λ x d. IsValid d) e _ w
              (λ n d' h.
                go now (find_by (λ j. j.id) id w.db.jobs) w.db n d' refl v (ok_injective h))
              (λ x. v))
            (λ n d h. h) (λ x d h. h);
    }

reset_from-Keeps :
    (random : String → ℕ → ℕ) (spread_for : String → ℕ) (now : ℕ) (js : List Job)
    → Keeps (reset_from random spread_for now js)
unfolding reset_from
reset_from-Keeps random spread_for now [] = Holds-pure tt
reset_from-Keeps random spread_for now (j ∷ js) =
    Holds-bind _ _ (reschedule_poll-Keeps j.id _) (λ _. reset_from-Keeps random spread_for now js)

pub reset_poll_schedules-Keeps :
    (random : String → ℕ → ℕ) (spread_for : String → ℕ)
    → Keeps (reset_poll_schedules random spread_for)
unfolding reset_poll_schedules
reset_poll_schedules-Keeps random spread_for = search (keeps_rules, reset_from-Keeps)
