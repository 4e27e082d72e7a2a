-- ===== src/Store/Invariant/Others.antt =====
-- What the series cache and the schedules write leaves the jobs and all that hangs on them alone
-- (internal/store/cache.go, internal/store/schedules.go).

use tenta_cron.Prelude.{
  ℕ, ◌+◌, String, ◌≡◌, refl, ap, subst, not, select_where, count_where, Option, none, some,
  Bool-cases, inl, inr,
}
use tenta_cron.Prelude.Tables.{find_by}
use tenta_cron.Store.Model.{ts, Schedule, Database}
use tenta_cron.Store.Sql.{ok, statement, execute}
use tenta_cron.Store.Sql.Hoare.{Post-statement, Post-tables}
use tenta_cron.Store.Sql.Holds.{Holds-pure, Holds-bind, Holds-time_now}
use tenta_cron.Store.Claim.{same_time}
use tenta_cron.Store.Claim.Outcome.{ok_injective}
use tenta_cron.Store.Cache.{put_series, purge_expired_series, with_series, is_stale}
use tenta_cron.Store.Schedules.{advance_schedule, advance_if, advanced_row}
use tenta_cron.Store.Invariant.{IsValid}
use tenta_cron.Store.Invariant.Keeps.{Keeps}

-- The jobs, their events and their deliveries are the same.
abbrev SameJobs : Database → Database → Type 0
SameJobs d d' = (d'.jobs ≡ d.jobs) × (d'.events ≡ d.events) × (d'.deliveries ≡ d.deliveries)

SameJobs-IsValid : (d d' : Database) → SameJobs d d' → IsValid d → IsValid d'
SameJobs-IsValid d d' s v = record {
  at = λ k. rw (s.0, s.1, s.2) (v.at k);
  unique = rw s.0 v.unique;
  once = λ client key. rw s.0 (v.once client key);
}

statement-Keeps :
    {A : Type 0} (g : Database → A × Database)
    → ((d : Database) → SameJobs d (g d).1)
    → Keeps (statement (λ d. ok (g d)))
statement-Keeps {A} g same = record {
  keeps = λ e w v.
      Post-tables (λ _ d. IsValid d) (λ x d. IsValid d) IsValid _
        (Post-statement (λ _ d. IsValid d) (λ x d. IsValid d) e (λ d. ok (g d)) w
          (λ a d h.
            SameJobs-IsValid w.db d
              (subst (SameJobs w.db) (ap (λ (p : A × Database). p.1) (ok_injective h)) (same w.db))
              v)
          (λ x. v))
        (λ _ d h. h) (λ x d h. h);
}

pub put_series-Keeps :
    (param_hash resolvent_type response : String) (ttl : ℕ)
    → Keeps (put_series param_hash resolvent_type response ttl)
unfolding put_series execute
put_series-Keeps param_hash resolvent_type response ttl = Holds-time_now _ λ now.
    statement-Keeps
      (λ d. (tt {0}, with_series param_hash resolvent_type response (ts now) (ts (now + ttl)) d))
      (λ d. (refl, refl, refl))

pub purge_expired_series-Keeps : Keeps purge_expired_series
unfolding purge_expired_series
purge_expired_series-Keeps = Holds-time_now _ λ now.
    statement-Keeps
      (λ d. (
        count_where (is_stale (ts now)) d.series,
        record d { series = select_where (λ s. not (is_stale (ts now) s)) d.series },
      ))
      (λ d. (refl, refl, refl))

advance_if-SameJobs :
    (due : ℕ) (f : Schedule → Schedule) (id : String) (d : Database) (o : Option Schedule)
    → SameJobs d (advance_if due f id d o).1
advance_if-SameJobs due f id d none = (refl, refl, refl)
advance_if-SameJobs due f id d (some s) = elim (Bool-cases (same_time s.next_run_at (some due))) [
  | inl t ↦ rw t (refl, refl, refl)
  | inr t ↦ rw t (refl, refl, refl)
]

pub advance_schedule-Keeps :
    (id : String) (due : ℕ) (job_id : String) (next : ℕ)
    → Keeps (advance_schedule id due job_id next)
unfolding advance_schedule
advance_schedule-Keeps id due job_id next = Holds-time_now _ λ now.
    Holds-bind _ _
      (statement-Keeps
        (λ d.
          advance_if (ts due) (advanced_row (ts due) job_id (ts next) (ts now)) id d
            (find_by (λ s. s.id) id d.schedules))
        (λ d.
          advance_if-SameJobs (ts due) (advanced_row (ts due) job_id (ts next) (ts now)) id d
            (find_by (λ s. s.id) id d.schedules)))
      (λ n. Holds-pure _)
