-- ===== src/Store/Invariant/Touch.antt =====
-- An update of one row that leaves its state alone keeps the invariant (internal/store/jobs.go).
use mathlib.Core.Option
use tenta_cron.Prelude.{
  String, ◌≡◌, refl, sym, ap, ◌∙◌, Option, none, some, str_eq, str_eq→≡, Bool-cases, inl, inr,
}
use tenta_cron.Prelude.Tables.{
  find_by, update_by, find_by-update_by, UniqueBy-update_by, count_where-update_by,
}
use tenta_cron.Store.Model.{Job, Database}
use tenta_cron.Store.Create.{has_key}
use tenta_cron.Store.Invariant.{RowIsValid, Linked, IsValid, history}
use tenta_cron.Store.Invariant.Transit.{IsBuild}

module _ (id : String) (f : Job → Job) (shape : IsBuild f) (d : Database) where
  touched_self :
      (o : Option Job)
      → find_by (λ j. j.id) id d.jobs ≡ o
      → ((j : Job) → o ≡ some j → RowIsValid j → RowIsValid (f j))
      → Linked o (history id d.events) (find_by (λ v. v.job_id) id d.deliveries)
      → Linked (Option.map f o) (history id d.events) (find_by (λ v. v.job_id) id d.deliveries)
  touched_self none e row l = l
  touched_self (some j) e row l = (
    row j refl l.0,
    l.1,
    l.2 ∙ ap some (sym (shape.same_state j)),
    l.3 ∙ rw (shape.same_state, shape.same_url),
  )

  pub touched-IsValid :
      ((j : Job) → find_by (λ j. j.id) id d.jobs ≡ some j → RowIsValid j → RowIsValid (f j))
      → IsValid d
      → IsValid (record d { jobs = update_by (λ j. j.id) id f d.jobs })
  touched-IsValid row v = record {
    at = λ k.
        rw (find_by-update_by (λ j. j.id) id k f d.jobs shape.same_id)
          (elim (Bool-cases (str_eq k id)) [
            | inl e ↦
                rw (e, str_eq→≡ k id e)
                  (touched_self (find_by (λ j. j.id) id d.jobs) refl row (v.at id))
            | inr e ↦ rw e (v.at k)
          ]);
    unique = UniqueBy-update_by (λ j. j.id) id f d.jobs shape.same_id v.unique;
    once = λ client key.
        rw
          (count_where-update_by (λ j. j.id) (has_key client key) id f d.jobs
            (λ j. rw (shape.same_client, shape.same_key)))
          (v.once client key);
  }
