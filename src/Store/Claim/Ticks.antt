-- ===== src/Store/Claim/Ticks.antt =====
-- A poll tick is handed out once (internal/store/jobs.go, `claimPollTick`).
use tenta_cron.Prelude.{
  ℕ, ◌<◌, String, ◌≡◌, ◌≢◌, refl, Bool, true, false, Option, none, some, arith, str_eq_refl,
  some_injective,
}
use tenta_cron.Prelude.Tables.{find_by, find_by-update_by}
use tenta_cron.Store.Model.{ts, awaiting_target, Job, Database}
use tenta_cron.Store.Sql.{Result, ok, err, Env, World}
use tenta_cron.Store.Sql.Hoare.{Post}
use tenta_cron.Store.Create.Outcome.{Same}
use tenta_cron.Store.Claim.{same_time, lease_row, claim_poll_tick}
use tenta_cron.Store.Claim.Outcome.{Ticked, claim_poll_tick-Post}

-- The job waits for its target, to be asked at the stored time `t`.
abbrev pub WaitsUntil : String → ℕ → Database → Type 0
WaitsUntil id t d =
    (j : Job) × (find_by (λ j. j.id) id d.jobs ≡ some j)
    × (j.state ≡ awaiting_target)
    × (j.next_attempt_at ≡ some t)

same_time→≡ : (o : Option ℕ) (t : ℕ) → same_time o (some t) ≡ true → o ≡ some t
same_time→≡ none t h = let no : ⊥ = cc in elim no [ ]
same_time→≡ (some x) t h = let same : x ≡ t = ground arith in rw same refl

Ticked-WaitsUntil :
    (id : String) (prev lease now : ℕ) (o : Option Job) (d d' : Database)
    → find_by (λ j. j.id) id d.jobs ≡ o
    → Ticked id (some prev) lease now o d true d'
    → WaitsUntil id prev d × WaitsUntil id (ts lease) d'
Ticked-WaitsUntil id prev lease now none d d' f h = elim h [ ]
Ticked-WaitsUntil id prev lease now (some j) d d' f (s, t, same) = (
  (j, f, s, same_time→≡ j.next_attempt_at prev t),
  (
    lease_row lease now j,
    rw same (
        rw
          (
            find_by-update_by (λ j. j.id) id id (lease_row lease now) d.jobs (λ j. refl),
            f,
            str_eq_refl id,
          )
          refl),
    s,
    refl,
  ),
)

returned_true :
    (Q : Bool → Database → Type 0) (d : Database) (r : Result Bool × World)
    → Post Q (Same d) r
    → r.0 ≡ ok true
    → Q true r.1.db
returned_true Q d (ok true, w) p h = p
returned_true Q d (ok false, w) p h = let no : ⊥ = cc in elim no [ ]
returned_true Q d (err x, w) p h = let no : ⊥ = cc in elim no [ ]

claimed-WaitsUntil :
    (id : String) (prev lease now : ℕ) (e : Env) (w : World)
    → (claim_poll_tick id (some prev) lease now e w).0 ≡ ok true
    → WaitsUntil id prev w.db
      × WaitsUntil id (ts lease) (claim_poll_tick id (some prev) lease now e w).1.db
claimed-WaitsUntil id prev lease now e w h =
    let o : Option Job = find_by (λ j. j.id) id w.db.jobs in
    Ticked-WaitsUntil id prev lease now o w.db _ refl (
      returned_true (Ticked id (some prev) lease now o w.db) w.db
        (claim_poll_tick id (some prev) lease now e w)
        (claim_poll_tick-Post id (some prev) lease now e w) h)

one_time : (id : String) (a b : ℕ) (d : Database) → WaitsUntil id a d → WaitsUntil id b d → a ≡ b
one_time id a b d (j, f, s, t) (j', f', s', t') = let same : j ≡ j' = cc in some_injective (cc)

-- Once a worker has claimed a poll tick, the job waits until the lease; another worker that read the
-- same time before does not claim it, whatever the faults and its lease, if the lease is a later time
-- than the one that both read.
pub claim_poll_tick-once :
    (id : String) (prev lease now lease' now' : ℕ) (e e' : Env) (w : World)
    → prev < ts lease
    → (claim_poll_tick id (some prev) lease now e w).0 ≡ ok true
    → let w1 = (claim_poll_tick id (some prev) lease now e w).1 in
      WaitsUntil id (ts lease) w1.db
      × ((claim_poll_tick id (some prev) lease' now' e' w1).0 ≢ ok true)
claim_poll_tick-once id prev lease now lease' now' e e' w later first =
    let w1 : World = (claim_poll_tick id (some prev) lease now e w).1 in
    let moved = (claimed-WaitsUntil id prev lease now e w first).1 in
    (
      moved,
      λ second.
          let old = (claimed-WaitsUntil id prev lease' now' e' w1 second).0 in
          let same : ts lease ≡ prev = one_time id (ts lease) prev w1.db moved old in omega arith,
    )
