-- ===== src/Store/Invariant/Retention.antt =====
-- Deleting jobs with all that hangs on them keeps the tables valid (internal/store/jobs.go).
use tenta_cron.Prelude.{
  ℕ, zero, suc, ◌≤◌, String, ◌≡◌, refl, ◌∙◌, Bool, true, not, none, List, [], ◌∷◌, arith, str_eq,
  str_eq→≡, select_where, count_where, if◌then◌else◌, Bool-cases, inl, inr, length,
}
use tenta_cron.Prelude.Tables.{find_by, UniqueBy}
use tenta_cron.Store.Model.{Event, Database}
use tenta_cron.Store.Sql.Hoare.{Post-tables, Post-execute}
use tenta_cron.Store.Create.{has_key}
use tenta_cron.Store.Claim.{is_listed}
use tenta_cron.Store.Retention.{without, delete_job_chunk, delete_from, delete_jobs}
use tenta_cron.Store.Invariant.{IsValid, history}
use tenta_cron.Store.Invariant.Keeps.{Keeps}
use tenta_cron.Store.Sql.Holds.{Holds-pure, Holds-bind}

-- A list that names a text names every equal text.
is_listed-str_eq :
    (a b : String) (ids : List String) → str_eq a b ≡ true → is_listed a ids ≡ is_listed b ids
is_listed-str_eq a b ids h = rw (str_eq→≡ a b h)

module _ {A : Type 0} (key : A → String) (ids : List String) where
  abbrev kept : List A → List A
  kept xs = select_where (λ x. not (is_listed (key x) ids)) xs

  pub find_by-kept :
      (k : String) (xs : List A)
      → find_by key k (kept xs) ≡ (if is_listed k ids then none else find_by key k xs)
  unfolding find_by select_where
  find_by-kept k [] = ground arith
  find_by-kept k (x ∷ xs) = ground (arith, find_by-kept k xs, is_listed-str_eq (key x) k ids)

  UniqueBy-kept : (xs : List A) → UniqueBy key xs → UniqueBy key (kept xs)
  unfolding select_where
  UniqueBy-kept [] u = tt
  UniqueBy-kept (x ∷ xs) u = elim (Bool-cases (is_listed (key x) ids)) [
    | inl l ↦ rw l (UniqueBy-kept xs u.1)
    | inr l ↦ rw l (find_by-kept (key x) xs ∙ rw l u.0, UniqueBy-kept xs u.1)
  ]

  count_where-kept : (p : A → Bool) (xs : List A) → count_where p (kept xs) ≤ count_where p xs
  unfolding count_where select_where
  count_where-kept p [] = omega arith
  count_where-kept p (x ∷ xs) = ground (arith, count_where-kept p xs)

history-kept :
    (ids : List String) (k : String) (es : List Event)
    → history k (kept (λ e. e.job_id) ids es) ≡ (if is_listed k ids then [] else history k es)
unfolding history select_where
history-kept ids k [] = ground arith
history-kept ids k (e ∷ es) = ground (arith, history-kept ids k es, is_listed-str_eq e.job_id k ids)

without-IsValid : (ids : List String) (d : Database) → IsValid d → IsValid (without ids d)
without-IsValid ids d v = record {
  at = λ k.
      rw
        (
          find_by-kept (λ j. j.id) ids k d.jobs,
          history-kept ids k d.events,
          find_by-kept (λ v. v.job_id) ids k d.deliveries,
        )
        (elim (Bool-cases (is_listed k ids)) [ inl l ↦ rw l (refl, refl) | inr l ↦ rw l (v.at k) ]);
  unique = UniqueBy-kept (λ j. j.id) ids d.jobs v.unique;
  once = λ client key.
      omega
        (arith, count_where-kept (λ j. j.id) ids (has_key client key) d.jobs, v.once client key);
}

pub delete_job_chunk-Keeps : (ids : List String) → Keeps (delete_job_chunk ids)
unfolding delete_job_chunk
delete_job_chunk-Keeps ids = record {
  keeps = λ e w v.
      Post-tables (λ _ d. IsValid d) (λ x d. IsValid d) IsValid _
        (Post-execute (λ _ d. IsValid d) (λ x d. IsValid d) e (without ids) w
          (without-IsValid ids w.db v) v)
        (λ _ d h. h) (λ x d h. h);
}

delete_from-Keeps : (fuel : ℕ) (ids : List String) → Keeps (delete_from fuel ids)
unfolding delete_from
delete_from-Keeps fuel [] = Holds-pure tt
delete_from-Keeps zero (id ∷ ids) = Holds-pure tt
delete_from-Keeps (suc fuel) (id ∷ ids) =
    Holds-bind _ _ (delete_job_chunk-Keeps _) (λ _. delete_from-Keeps fuel _)

-- Deleting jobs leaves no event and no delivery without its job, wherever it stops.
pub delete_jobs-Keeps : (ids : List String) → Keeps (delete_jobs ids)
unfolding delete_jobs
delete_jobs-Keeps ids = delete_from-Keeps (length ids) ids
