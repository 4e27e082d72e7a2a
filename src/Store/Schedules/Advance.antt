-- ===== src/Store/Schedules/Advance.antt =====
-- Two schedulers never both advance a schedule over one due time (internal/store/schedules.go).

use tenta_cron.Prelude.{
  ℕ, ◌+◌, ◌<◌, String, ◌==◌, ◌≡◌, ◌≢◌, refl, ap, Bool, true, false, Option, none, some, arith,
  str_eq_refl, Bool-cases, inl, inr,
}
use tenta_cron.Prelude.Tables.{find_by, update_by, find_by-update_by}
use tenta_cron.Store.Model.{ts, Schedule, Database}
use tenta_cron.Store.Sql.{Result, ok, err, Env, World, statement}
use tenta_cron.Store.Sql.Hoare.{Post, Post-statement, Post-bind, Post-time_now, Post-pure}
use tenta_cron.Store.Claim.{same_time}
use tenta_cron.Store.Claim.Outcome.{ok_injective}
use tenta_cron.Store.Schedules.{advance_schedule, advance_if, advanced_row}

abbrev pub AtTime : String → ℕ → Database → Type 0
AtTime id t d =
    (s : Schedule) × (find_by (λ s. s.id) id d.schedules ≡ some s)
    × (same_time s.next_run_at (some t) ≡ true)

-- An advance that returned true found the due time and left the next one.
abbrev pub Advanced : String → ℕ → ℕ → Database → Bool → Database → Type 0
Advanced id due next d b d' = b ≡ true → AtTime id (ts due) d × AtTime id (ts next) d'

advanced :
    (id : String) (due : ℕ) (job_id : String) (next now : ℕ) (d : Database) (o : Option Schedule)
    (n : ℕ) (d' : Database)
    → find_by (λ s. s.id) id d.schedules ≡ o
    → advance_if (ts due) (advanced_row (ts due) job_id (ts next) (ts now)) id d o ≡ (n, d')
    → Advanced id due next d (n == 1) d'
advanced id due job_id next now d none n d' f h one = ground arith
advanced id due job_id next now d (some s) n d' f h one =
    elim (Bool-cases (same_time s.next_run_at (some (ts due)))) [
      | inl t ↦
          let left : record d {
            schedules =
                update_by (λ s. s.id) id (advanced_row (ts due) job_id (ts next) (ts now))
                  d.schedules;
          }
              ≡ d' =
            ap (λ (p : ℕ × Database). p.1) (rw t at h) in
          (
            (s, f, t),
            (
              advanced_row (ts due) job_id (ts next) (ts now) s,
              rw (← left) (
                  rw
                    (
                      find_by-update_by (λ s. s.id) id id
                          (advanced_row (ts due) job_id (ts next) (ts now)) d.schedules (λ s. refl),
                      f,
                      str_eq_refl id,
                    )
                    refl),
              ground arith,
            ),
          )
      | inr t ↦
          let zero_rows : 0 ≡ n = ap (λ (p : ℕ × Database). p.0) (rw t at h) in
          let no : ⊥ = cc (rw (← zero_rows) at one) in elim no [ ]
    ]

pub advance_schedule-Post :
    (id : String) (due : ℕ) (job_id : String) (next : ℕ) (e : Env) (w : World)
    → Post (Advanced id due next w.db) (λ x d. Unit {0}) (advance_schedule id due job_id next e w)
unfolding advance_schedule
advance_schedule-Post id due job_id next e w =
    let now : ℕ = e.clock w.step in
    let Q : Bool → Database → Type 0 = Advanced id due next w.db in
    let R : ℕ → Database → Type 0 = λ n d'.
      advance_if (ts due) (advanced_row (ts due) job_id (ts next) (ts now)) id w.db
        (find_by (λ s. s.id) id w.db.schedules)
      ≡ (n, d') in
    Post-time_now Q (λ x d. Unit {0}) e _ w
      (Post-bind R Q (λ x d. Unit {0}) e (statement _) _ (record w { step = w.step + 1 })
        (Post-statement R (λ x d. Unit {0}) e _ (record w { step = w.step + 1 })
          (λ n d' p. ok_injective p) (λ x. tt))
        λ n w1 h1.
          Post-pure Q (λ x d. Unit {0}) e (n == 1) w1
            (advanced id due job_id next now w.db (find_by (λ s. s.id) id w.db.schedules) n w1.db
              refl h1))

returned_true :
    (Q : Bool → Database → Type 0) (r : Result Bool × World)
    → Post Q (λ x d. Unit {0}) r
    → r.0 ≡ ok true
    → Q true r.1.db
returned_true Q (ok true, w) p h = p
returned_true Q (ok false, w) p h = let no : ⊥ = cc in elim no [ ]
returned_true Q (err x, w) p h = let no : ⊥ = cc in elim no [ ]

pub one_time : (id : String) (a b : ℕ) (d : Database) → AtTime id a d → AtTime id b d → a ≡ b
one_time id a b d (s, f, t) (s', f', t') =
    let same : s ≡ s' = cc in agree s.next_run_at t (rw same t')
  where
    agree : (o : Option ℕ) → same_time o (some a) ≡ true → same_time o (some b) ≡ true → a ≡ b
    agree none p q = cc
    agree (some x) p q = ground arith

-- Once a scheduler has advanced a schedule over a due time to a later one, another that read the
-- same due time does not, whatever its faults and its clock.
pub advance_schedule-once :
    (id : String) (due : ℕ) (job_id : String) (next : ℕ) (job_id' : String) (next' : ℕ) (e e' : Env)
    (w : World)
    → ts due < ts next
    → (advance_schedule id due job_id next e w).0 ≡ ok true
    → (advance_schedule id due job_id' next' e' (advance_schedule id due job_id next e w).1).0
      ≢ ok true
advance_schedule-once id due job_id next job_id' next' e e' w later first second =
    let w1 : World = (advance_schedule id due job_id next e w).1 in
    let a : AtTime id (ts due) w.db × AtTime id (ts next) w1.db =
      returned_true (Advanced id due next w.db) _ (advance_schedule-Post id due job_id next e w)
        first refl in
    let b =
      returned_true (Advanced id due next' w1.db) _
        (advance_schedule-Post id due job_id' next' e' w1) second refl in
    let same : ts next ≡ ts due = one_time id (ts next) (ts due) w1.db a.1 b.0 in omega arith
