-- ===== src/Runs/Restart.antt =====
-- After a restart no job stays with a worker that is gone (internal/store/jobs.go,
-- `RecoverInFlight`).

use tenta_cron.Prelude.{
  some_injective, str_eq-swap, ℕ, ◌+◌, String, ◌≡◌, refl, sym, subst, Bool, true, false, ◌||◌, none,
  some, List, [], ◌∷◌, map, arith, str_eq, str_eq→≡, str_eq_refl, Bool-cases, inl, inr,
  if◌then◌else◌, select_where, length,
}
use tenta_cron.Prelude.Tables.{find_by, find_by-update_by, UniqueBy}
use tenta_cron.Store.Model.{received, is_terminal, is_held, Detail, Job, Database}
use tenta_cron.Store.Sql.{Result, ok, err, Env, World, M, pure, continue, ◌>>=◌}
use tenta_cron.Store.Transition.{transition, transition_guarded, transit, from_guard, requeue_row}
use tenta_cron.Store.Transition.Outcome.{after}
use tenta_cron.Store.Transition.Total.{transition_guarded_exact}
use tenta_cron.Store.Claim.{is_listed}
use tenta_cron.Store.Recovery.{requeue_all, held_ids, recover_in_flight}
use tenta_cron.Store.Invariant.{IsValid}
use tenta_cron.Store.Invariant.Recovery.{requeue_one-Keeps}

-- The job with this id is there, and not over.
abbrev Live : String → Database → Type 0
Live k d = (j : Job) × (find_by (λ j. j.id) k d.jobs ≡ some j) × (is_terminal j.state ≡ false)

-- Every held job is on the list.
abbrev Covers : List String → Database → Type 0
Covers ids d =
    (k : String) (j : Job)
    → find_by (λ j. j.id) k d.jobs ≡ some j
    → is_held j.state ≡ true
    → is_listed k ids ≡ true

abbrev NoneHeld : Database → Type 0
NoneHeld d =
    (k : String) (j : Job) → find_by (λ j. j.id) k d.jobs ≡ some j → is_held j.state ≡ false

abbrev held_in : List Job → List String
held_in js = map (λ j. j.id) (select_where (λ j. is_held j.state) js)

held_in-∷ :
    (x : Job) (js : List Job)
    → held_in (x ∷ js) ≡ (if is_held x.state then x.id ∷ held_in js else held_in js)
unfolding select_where
held_in-∷ x js = elim (Bool-cases (is_held x.state)) [ inl h ↦ rw h refl | inr h ↦ rw h refl ]

held_in-nil : held_in [] ≡ []
unfolding select_where
held_in-nil = refl

-- A held job's id is among the ids of the held jobs,
held_in-listed :
    (k : String) (js : List Job) (j : Job)
    → find_by (λ j. j.id) k js ≡ some j
    → is_held j.state ≡ true
    → is_listed k (held_in js) ≡ true
unfolding find_by
held_in-listed k [] j f h = cc
held_in-listed k (x ∷ js) j f h = elim (Bool-cases (str_eq x.id k)) [
  | inl e ↦
      let same : x ≡ j = some_injective (rw e at f) in
      let hx : is_held x.state ≡ true = rw same h in rw (held_in-∷ x js, hx, e) refl
  | inr e ↦
      let ih : is_listed k (held_in js) ≡ true = held_in-listed k js j (rw e at f) h in
      elim (Bool-cases (is_held x.state)) [
        | inl hx ↦ rw (held_in-∷ x js, hx, e) ih
        | inr hx ↦ rw (held_in-∷ x js, hx) ih
      ]
]

-- and where ids are unique an id among them is the id of a held job.
listed-held_in :
    (k : String) (js : List Job)
    → UniqueBy (λ j. j.id) js
    → is_listed k (held_in js) ≡ true
    → (j : Job) × (find_by (λ j. j.id) k js ≡ some j) × (is_held j.state ≡ true)
unfolding find_by
listed-held_in k [] u h = let no : ⊥ = cc (rw held_in-nil at h) in elim no [ ]
listed-held_in k (x ∷ js) u h = elim (Bool-cases (str_eq x.id k)) [
  | inl e ↦ elim (Bool-cases (is_held x.state)) [
    | inl hx ↦ (x, rw e refl, hx)
    | inr hx ↦
        let (j, f, hj) = listed-held_in k js u.1 (rw (held_in-∷ x js, hx) at h) in
        let gone : find_by (λ j. j.id) k js ≡ none =
          subst (λ y. find_by (λ j. j.id) y js ≡ none) (str_eq→≡ _ _ e) u.0 in
        cc
  ]
  | inr e ↦
      let rest : is_listed k (held_in js) ≡ true = elim (Bool-cases (is_held x.state)) [
        | inl hx ↦ rw (held_in-∷ x js, hx, e) at h
        | inr hx ↦ rw (held_in-∷ x js, hx) at h
      ] in
      let (j, f, hj) = listed-held_in k js u.1 rest in (j, rw e f, hj)
]

put_back-elsewhere :
    (detail : Detail) (id k : String) (now : ℕ) (j : Job) (d : Database)
    → find_by (λ j. j.id) id d.jobs ≡ some j
    → find_by (λ j. j.id) k (after id received detail now (requeue_row none) j d).jobs ≡ (
        if str_eq k id
        then some (transit received now (requeue_row none) j)
        else find_by (λ j. j.id) k d.jobs)
put_back-elsewhere detail id k now j d f = elim (Bool-cases (str_eq k id)) [
  | inl e ↦
      rw
        (
          find_by-update_by (λ j. j.id) id k (transit received now (requeue_row none)) d.jobs
              (λ j. refl),
          e,
          str_eq→≡ k id e,
          f,
        )
        refl
  | inr e ↦
      rw
        (
          find_by-update_by (λ j. j.id) id k (transit received now (requeue_row none)) d.jobs
              (λ j. refl),
          e,
        )
        refl
]

or_later : (b c : Bool) → c ≡ true → b || c ≡ true
or_later true c h = refl
or_later false c h = h

-- Putting one job back leaves the others on the list live, and held jobs on the list.
module _ (detail : Detail) (id : String) (ids : List String) (now : ℕ) (j : Job) (d : Database)
    (f : find_by (λ j. j.id) id d.jobs ≡ some j) where
  put_back-Live :
      ((k : String) → is_listed k (id ∷ ids) ≡ true → Live k d)
      → (k : String) → is_listed k ids ≡ true
      → Live k (after id received detail now (requeue_row none) j d)
  put_back-Live live k h = elim (Bool-cases (str_eq k id)) [
    | inl e ↦ (
      transit received now (requeue_row none) j,
      rw (put_back-elsewhere detail id k now j d f, e) refl,
      refl,
    )
    | inr e ↦
        let (x, g, l) = live k (or_later (str_eq id k) (is_listed k ids) h) in
        (x, rw (put_back-elsewhere detail id k now j d f, e) g, l)
  ]

  put_back-Covers :
      Covers (id ∷ ids) d → Covers ids (after id received detail now (requeue_row none) j d)
  put_back-Covers covers k x g h = elim (Bool-cases (str_eq k id)) [
    | inl e ↦
        let same : transit received now (requeue_row none) j ≡ x =
          some_injective (rw (put_back-elsewhere detail id k now j d f, e) at g) in
        let free : is_held x.state ≡ false = rw (← same) refl in let no : ⊥ = cc in elim no [ ]
    | inr e ↦
        rw (str_eq-swap k id e) at
          (covers k x (rw (put_back-elsewhere detail id k now j d f, e) at g) h)
  ]

module _ (e : Env) (calm : (n : ℕ) → e.fails n ≡ false) (detail : Detail) where
  continue_ok :
      {B : Type 0} (f : Unit {0} → M B) (r : Result (Unit {0}) × World)
      → r.0 ≡ ok tt
      → continue f e r ≡ f tt e r.1
  continue_ok f (ok a, w) h = refl
  continue_ok f (err x, w) h = cc

  requeue_all_drains :
      (ids : List String) (w : World)
      → IsValid w.db
      → ((k : String) → is_listed k ids ≡ true → Live k w.db)
      → Covers ids w.db
      → ((requeue_all detail ids e w).0 ≡ ok tt) × NoneHeld (requeue_all detail ids e w).1.db
  unfolding requeue_all pure ◌>>=◌ transition
  requeue_all_drains [] w v live covers = (
    refl,
    λ k j f. elim (Bool-cases (is_held j.state)) [
      | inl h ↦ let no : ⊥ = cc (covers k j f h) in elim no [ ]
      | inr h ↦ h
    ],
  )
  requeue_all_drains (id ∷ ids) w v live covers =
      let (j, f, l) = live id (rw (str_eq_refl id) refl) in
      let r : Result (Unit {0}) × World =
        transition_guarded id (from_guard none) received detail (requeue_row none) e w in
      let (done, left) =
        transition_guarded_exact id (from_guard none) received detail (requeue_row none) (λ j. refl)
          e w j v calm f l refl in
      let ih : ((requeue_all detail ids e r.1).0 ≡ ok tt)
          × NoneHeld (requeue_all detail ids e r.1).1.db =
        requeue_all_drains ids r.1 ((requeue_one-Keeps id detail).keeps e w v)
          (subst (λ d. (k : String) → is_listed k ids ≡ true → Live k d) (sym left)
            (put_back-Live detail id ids (e.clock w.step) j w.db f live))
          (subst (Covers ids) (sym left)
            (put_back-Covers detail id ids (e.clock w.step) j w.db f covers)) in
      rw (continue_ok (λ _. requeue_all detail ids) r done) ih

held-live : (j : Job) → is_held j.state ≡ true → is_terminal j.state ≡ false
held-live j h = ground arith

finished :
    {A : Type 0} (e : Env) (a : A) (r : Result (Unit {0}) × World)
    → (r.0 ≡ ok tt) × NoneHeld r.1.db
    → ((continue (λ _. pure a) e r).0 ≡ ok a) × NoneHeld (continue (λ _. pure a) e r).1.db
unfolding pure
finished e a (ok u, w) h = (refl, h.1)
finished e a (err x, w) h = let no : ⊥ = cc (h.0) in elim no [ ]

-- From valid tables and where no statement fails, recovery after a restart returns the number of
-- jobs that were held, and leaves no job held.
pub recover_in_flight-drains :
    (e : Env) (w : World)
    → IsValid w.db
    → ((n : ℕ) → e.fails n ≡ false)
    → ((recover_in_flight e w).0 ≡ ok (length (held_ids w.db)))
      × ((k : String) (j : Job)
          → find_by (λ j. j.id) k (recover_in_flight e w).1.db.jobs ≡ some j
          → is_held j.state ≡ false)
unfolding recover_in_flight ◌>>=◌
recover_in_flight-drains e w v calm =
    let ids : List String = held_ids w.db in
    rw (calm w.step) (
      finished e (length ids) _ (
        requeue_all_drains e calm (Detail.text "recovered after restart") ids
          (record w { step = w.step + 1 }) v
          (λ k h. let (j, f, hj) = listed-held_in k w.db.jobs v.unique h in (j, f, held-live j hj))
          (λ k j f h. held_in-listed k w.db.jobs j f h)))
