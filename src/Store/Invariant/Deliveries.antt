-- ===== src/Store/Invariant/Deliveries.antt =====
-- Recording a callback's attempt keeps the tables valid (internal/store/deliveries.go).
use mathlib.Core.Option
use tenta_cron.Prelude.{
  ℕ, String, ◌==◌, ◌≡◌, refl, subst, Bool, true, false, Option, none, some, List, if◌then◌else◌,
  Bool-cases, inl, inr,
}
use tenta_cron.Prelude.Tables.{update_by, find_by-update_by}
use tenta_cron.Store.Model.{Job, Event, Delivery, Database}
use tenta_cron.Store.Sql.{ok}
use tenta_cron.Store.Sql.Hoare.{Post-statement, Post-tables}
use tenta_cron.Store.Deliveries.{attempt_row, update_attempt, record_attempt}
use tenta_cron.Store.Invariant.{Linked, IsValid}
use tenta_cron.Store.Invariant.Keeps.{Keeps}
use tenta_cron.Store.Sql.Holds.{Holds-time_now}

-- Only whether there is a delivery counts.
Linked-delivery :
    (o : Option Job) (es : List Event) (f : Delivery → Delivery) (v : Option Delivery)
    → Linked o es v
    → Linked o es (Option.map f v)
Linked-delivery none es f none l = l
Linked-delivery none es f (some v) l = (l.0, cc)
Linked-delivery (some j) es f none l = l
Linked-delivery (some j) es f (some v) l = l

map_at :
    (b : Bool) (o : Option Job) (es : List Event) (f : Delivery → Delivery) (v : Option Delivery)
    → Linked o es v
    → Linked o es (if b then Option.map f v else v)
map_at true o es f v l = Linked-delivery o es f v l
map_at false o es f v l = l

attempted-IsValid :
    (id : String) (f : Delivery → Delivery) (d : Database)
    → ((v : Delivery) → (f v).job_id ≡ v.job_id)
    → IsValid d
    → IsValid (record d { deliveries = update_by (λ v. v.job_id) id f d.deliveries })
attempted-IsValid id f d keep v = record {
  at = λ k.
      rw (find_by-update_by (λ v. v.job_id) id k f d.deliveries keep) (map_at _ _ _ f _ (v.at k));
  unique = v.unique;
  once = v.once;
}

update_attempt-IsValid :
    (prev : ℕ) (f : Delivery → Delivery) (id : String) (d : Database) (o : Option Delivery)
    (a : Unit {0}) (d' : Database)
    → ((v : Delivery) → (f v).job_id ≡ v.job_id)
    → IsValid d
    → update_attempt prev f id d o ≡ ok (a, d')
    → IsValid d'
update_attempt-IsValid prev f id d none a d' keep v h = cc
update_attempt-IsValid prev f id d (some x) a d' keep v h = elim (Bool-cases (x.attempts == prev)) [
  | inl t ↦ subst IsValid (cc (rw t at h)) (attempted-IsValid id f d keep v)
  | inr t ↦ cc (rw t at h)
]

pub record_attempt-Keeps :
    (id : String) (prev : ℕ) (status : Option ℕ) (last_error : Option String) (success : Bool)
    (next : Option ℕ)
    → Keeps (record_attempt id prev status last_error success next)
unfolding record_attempt
record_attempt-Keeps id prev status last_error success next = Holds-time_now _ λ now. record {
  keeps = λ e w v.
      Post-tables (λ n d. IsValid d) (λ x d. IsValid d) IsValid _
        (Post-statement (λ n d. IsValid d) (λ x d. IsValid d) e _ w
          (λ a d' h.
            update_attempt-IsValid prev (attempt_row status last_error success next now) id w.db _ a
              d' (λ v. refl) v h)
          (λ x. v))
        (λ n d h. h) (λ x d h. h);
}
