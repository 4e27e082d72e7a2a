-- ===== src/Store/Claim/Outcome.antt =====
-- What claiming a job or a poll tick does to the tables, on every path (internal/store/jobs.go).

use tenta_cron.Prelude.{
  ℕ, String, ◌==◌, ◌≡◌, refl, sym, ap, Bool, true, false, ◌&&◌, Option, none, some, if◌then◌else◌,
  arith, and_left, and_right, Bool-cases, inl, inr,
}
use tenta_cron.Prelude.Tables.{find_by, update_by}
use tenta_cron.Store.Model.{
  received, resolving, awaiting_target, Detail, Job, Database, same_state, same_state→≡,
}
use tenta_cron.Store.Sql.{
  ok, Env, World, pure, statement, execute, on_error, rollback, commit, ◌>>◌,
}
use tenta_cron.Store.Sql.Hoare.{
  Post, Post-statement, Post-execute, Post-bind, Post-commit, Post-rolled_back, Post-begin,
  Post-rollback, Post-pure,
}
use tenta_cron.Store.Transition.{append_event, transit}
use tenta_cron.Store.Transition.Outcome.{Any, append_event-Post, after}
use tenta_cron.Store.Create.Outcome.{Same}
use tenta_cron.Store.Claim.{
  claim_row, is_claimable, update_if, served, record_claim, claim_received, lease_row, same_time,
  claim_poll_tick,
}

abbrev pub claimed_detail : Detail
claimed_detail = Detail.text "claimed by worker"

-- The tables after a claim of the row `j`: the transition, and the client's turn.
abbrev pub claimed_db : String → String → ℕ → Job → Database → Database
claimed_db id client now j d =
    served client now (after id resolving claimed_detail now claim_row j d)

-- A claim that returned true found its row claimable; any other left the tables alone.
abbrev pub Claimed : String → String → ℕ → ℕ → Option Job → Database → Bool → Database → Type 0
Claimed id client ceiling now o d false d' = d' ≡ d
Claimed id client ceiling now none d true d' = ⊥
Claimed id client ceiling now (some j) d true d' =
    (is_claimable client ceiling now d.jobs j ≡ true) × (d' ≡ claimed_db id client now j d)

module _ (id client : String) (ceiling now : ℕ) (d : Database) (e : Env) where
  abbrev moved : Database
  moved = record d { jobs = update_by (λ j. j.id) id (transit resolving now claim_row) d.jobs }

  record-Post :
      (j : Job) (w : World)
      → is_claimable client ceiling now d.jobs j ≡ true
      → w.db ≡ moved
      → Post (Claimed id client ceiling now (some j) d) (Same d) (record_claim id client now d e w)
  unfolding record_claim
  record-Post j w c h =
      let Q : Bool → Database → Type 0 = Claimed id client ceiling now (some j) d in
      let Served : Unit → Database → Type 0 = λ _ d'. d' ≡ served client now moved in
      let All : Unit → Database → Type 0 = λ _ d'. d' ≡ claimed_db id client now j d in
      Post-bind Served Q (Same d) e (on_error (rollback d) (execute (served client now))) _ w
        (Post-rolled_back Served (Same d) e d _ w
          (Post-execute Served Any e (served client now) w (ap (served client now) h) tt)
          (λ x. refl))
        λ _ w1 h1.
          Post-bind All Q (Same d) e
            (on_error (rollback d) (append_event id (some received) resolving claimed_detail now)) _
            w1 (Post-rolled_back All (Same d) e d _ w1 (event-Post w1 h1) (λ x. refl))
            λ _ w2 h2.
              Post-bind All Q (Same d) e (commit d) _ w2 (Post-commit All (Same d) e d w2 h2 refl)
                λ _ w3 h3. Post-pure Q (Same d) e true w3 (c, h3)
    where
      was_received : j.state ≡ received
      was_received = same_state→≡ j.state received (ground arith)

      event-Post :
          (w1 : World)
          → w1.db ≡ served client now moved
          → Post
              (λ _ d'. d' ≡ claimed_db id client now j d)
              (λ _ _. Unit {0})
              (append_event id (some received) resolving claimed_detail now e w1)
      event-Post w1 h1 = rw was_received (
          append_event-Post id (some received) resolving claimed_detail now
            (served client now moved) e w1 h1)

  missed-Post :
      (o : Option Job) (n : ℕ) (w : World)
      → n ≡ 0
      → Post
          (Claimed id client ceiling now o d)
          (Same d)
          ((if n == 1 then record_claim id client now d else (rollback d >> pure false)) e w)
  missed-Post o n w z =
      let Q : Bool → Database → Type 0 = Claimed id client ceiling now o d in
      rw z (
        Post-rollback Q (Same d) e d _ w
          (λ w1 h1. Post-pure Q (Same d) e false w1 (rw h1 (unchanged o))))
    where
      unchanged : (o : Option Job) → Claimed id client ceiling now o d false d
      unchanged none = refl
      unchanged (some j) = refl

  settle-Post :
      (o : Option Job) (n : ℕ) (w : World)
      → update_if (is_claimable client ceiling now d.jobs) (transit resolving now claim_row) id d o
        ≡ (n, w.db)
      → Post
          (Claimed id client ceiling now o d)
          (Same d)
          ((if n == 1 then record_claim id client now d else (rollback d >> pure false)) e w)
  settle-Post none n w h = missed-Post none n w (ground arith)
  settle-Post (some j) n w h = elim (Bool-cases (is_claimable client ceiling now d.jobs j)) [
    | inl c ↦
        let hit : (1, moved) ≡ (n, w.db) = (rw c at h) in
        let one : n ≡ 1 = sym (ap (λ (p : ℕ × Database). p.0) hit) in
        rw one (record-Post j w c (sym (ap (λ (p : ℕ × Database). p.1) hit)))
    | inr c ↦ missed-Post (some j) n w (sym (ap (λ (p : ℕ × Database). p.0) (rw c at h)))
  ]

pub ok_injective : {A : Type 0} {a b : A} → ok a ≡ ok b → a ≡ b
ok_injective h = cc

-- A claim that returns true found its row received, due and under the ceiling at that moment, and
-- leaves the resolving row, the served client and the event; a claim that returns false or an error
-- leaves the tables alone.
pub claim_received-Post :
    (id client : String) (ceiling now : ℕ) (e : Env) (w : World)
    → Post
        (Claimed id client ceiling now (find_by (λ j. j.id) id w.db.jobs) w.db)
        (Same w.db)
        (claim_received id client ceiling now e w)
unfolding claim_received
claim_received-Post id client ceiling now e w =
    let d : Database = w.db in
    let o : Option Job = find_by (λ j. j.id) id d.jobs in
    let Q : Bool → Database → Type 0 = Claimed id client ceiling now o d in
    let R : ℕ → Database → Type 0 = λ n d'.
      update_if (is_claimable client ceiling now d.jobs) (transit resolving now claim_row) id d o
      ≡ (n, d') in
    Post-begin Q (Same d) e _ w
      (λ w1 h1.
        Post-bind R Q (Same d) e (on_error (rollback d) (statement _)) _ w1
          (Post-rolled_back R (Same d) e d _ w1
            (Post-statement R Any e _ w1 (λ n d' p. ok_injective (rw h1 at p)) (λ x. tt))
            (λ x. refl))
          λ n w2 h2. settle-Post id client ceiling now d e o n w2 h2)
      refl

-- A poll tick is claimed by moving its time forward, when it is still the time that was read.
abbrev pub Ticked : String → Option ℕ → ℕ → ℕ → Option Job → Database → Bool → Database → Type 0
Ticked id prev lease now o d false d' = d' ≡ d
Ticked id prev lease now none d true d' = ⊥
Ticked id prev lease now (some j) d true d' =
    (j.state ≡ awaiting_target)
    × (same_time j.next_attempt_at prev ≡ true)
    × (d' ≡ record d { jobs = update_by (λ j. j.id) id (lease_row lease now) d.jobs })

-- A poll tick that is claimed found its job awaiting the target at the time that was read, and moves
-- that time to the lease; one that is not claimed, or fails, leaves the tables alone.
pub claim_poll_tick-Post :
    (id : String) (prev : Option ℕ) (lease now : ℕ) (e : Env) (w : World)
    → Post
        (Ticked id prev lease now (find_by (λ j. j.id) id w.db.jobs) w.db)
        (Same w.db)
        (claim_poll_tick id prev lease now e w)
unfolding claim_poll_tick
claim_poll_tick-Post id prev lease now e w =
    let d : Database = w.db in
    let o : Option Job = find_by (λ j. j.id) id d.jobs in
    let test : Job → Bool =
      λ j. same_state j.state awaiting_target && same_time j.next_attempt_at prev in
    let R : ℕ → Database → Type 0 = λ n d'. update_if test (lease_row lease now) id d o ≡ (n, d') in
    let Q : Bool → Database → Type 0 = Ticked id prev lease now o d in
    Post-bind R Q (Same d) e (statement _) _ w
      (Post-statement R (Same d) e _ w (λ n d' p. ok_injective p) (λ x. refl))
      λ n w1 h1. Post-pure Q (Same d) e (n == 1) w1 (ticked o n w1.db h1)
  where
    ticked :
        (o : Option Job) (n : ℕ) (d' : Database)
        → update_if
            (λ j. same_state j.state awaiting_target && same_time j.next_attempt_at prev)
            (lease_row lease now)
            id
            w.db
            o
          ≡ (n, d')
        → Ticked id prev lease now o w.db (n == 1) d'
    ticked none n d' h =
        rw (sym (ap (λ (p : ℕ × Database). p.0) h)) (sym (ap (λ (p : ℕ × Database). p.1) h))
    ticked (some j) n d' h =
        elim (Bool-cases (same_state j.state awaiting_target && same_time j.next_attempt_at prev)) [
          | inl t ↦
              let hit : (
                1,
                record w.db { jobs = update_by (λ j. j.id) id (lease_row lease now) w.db.jobs },
              )
                  ≡ (n, d') =
                (rw t at h) in
              rw (sym (ap (λ (p : ℕ × Database). p.0) hit)) (
                same_state→≡ j.state awaiting_target (and_left _ _ t),
                and_right _ _ t,
                sym (ap (λ (p : ℕ × Database). p.1) hit),
              )
          | inr t ↦
              let miss : (0, w.db) ≡ (n, d') = (rw t at h) in
              rw (sym (ap (λ (p : ℕ × Database). p.0) miss))
                (sym (ap (λ (p : ℕ × Database). p.1) miss))
        ]
