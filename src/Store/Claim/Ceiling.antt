-- ===== src/Store/Claim/Ceiling.antt =====
-- The per-client ceiling on jobs in flight, and the order of candidates (internal/store/jobs.go).
use tenta_cron.Prelude.{
  ℕ, zero, suc, ◌+◌, ◌≤◌, ◌<◌, String, ◌≡◌, Bool, true, false, Option, none, some, List, [], ◌∷◌,
  arith, All, str_eq, str_eq→≡, count_where, Bool-cases, inl, inr, and_right, subst, select_where,
  take,
}
use tenta_cron.Prelude.Tables.{find_by, update_by, UniqueBy, update_by-none}
use tenta_cron.Store.Model.{Job, Database, resolving}
use tenta_cron.Store.Transition.{transit}
use tenta_cron.Store.Claim.{
  is_held_by, claim_row, is_eligible, below, insert_by, sort_by, is_sooner, candidates, is_free,
  claim_batch,
}
use tenta_cron.Store.Claim.Outcome.{Claimed, claim_received-Post}
use tenta_cron.Store.Create.Outcome.{Same}
use tenta_cron.Store.Sql.{Result, ok, err, Env, World}
use tenta_cron.Store.Sql.Hoare.{Post}
use tenta_cron.Store.Claim.{claim_received}

module _ {A : Type 0} (key : A → String) where
  -- One row changes, so a count grows by one at most.
  count_where-update_by_le :
      (p : A → Bool) (k : String) (f : A → A) (xs : List A)
      → UniqueBy key xs
      → count_where p (update_by key k f xs) ≤ count_where p xs + 1
  unfolding count_where update_by
  count_where-update_by_le p k f [] u = omega arith
  count_where-update_by_le p k f (x ∷ xs) u = elim (Bool-cases (str_eq (key x) k)) [
    | inl e ↦
        rw
          (e, update_by-none key k f xs (subst (λ j. find_by key j xs ≡ none) (str_eq→≡ _ _ e) u.0))
          (ground arith)
    | inr e ↦ rw e (ground (arith, count_where-update_by_le p k f xs u.1))
  ]

Claimed-le_ceiling :
    (id client : String) (ceiling now : ℕ) (d d' : Database)
    → UniqueBy (λ j. j.id) d.jobs
    → 0 < ceiling
    → Claimed id client ceiling now (find_by (λ j. j.id) id d.jobs) d true d'
    → count_where (is_held_by client) d'.jobs ≤ ceiling
Claimed-le_ceiling id client ceiling now d d' u pos c = go (find_by (λ j. j.id) id d.jobs) c
  where
    go :
        (o : Option Job)
        → Claimed id client ceiling now o d true d'
        → count_where (is_held_by client) d'.jobs ≤ ceiling
    go none c = elim c [ ]
    go (some j) c =
        let room : below ceiling (count_where (is_held_by client) d.jobs) ≡ true =
          and_right (is_free now j) (below ceiling (count_where (is_held_by client) d.jobs)) c.0 in
        let fits : count_where (is_held_by client) d.jobs < ceiling = ground arith in
        rw c.1 (
          omega (
            arith,
            count_where-update_by_le (λ j. j.id) (is_held_by client) id
                (transit resolving now claim_row) d.jobs u,
          ))

-- A claim that goes through under a ceiling leaves its client with no more jobs in flight than the
-- ceiling, in any tables where ids are unique and whatever candidates were read before.
pub claim_received-le_ceiling :
    (id client : String) (ceiling now : ℕ) (e : Env) (w : World)
    → UniqueBy (λ j. j.id) w.db.jobs
    → 0 < ceiling
    → (claim_received id client ceiling now e w).0 ≡ ok true
    → count_where (is_held_by client) (claim_received id client ceiling now e w).1.db.jobs ≤ ceiling
claim_received-le_ceiling id client ceiling now e w u pos h =
    go (claim_received id client ceiling now e w) (claim_received-Post id client ceiling now e w) h
  where
    go :
        (r : Result Bool × World)
        → Post (Claimed id client ceiling now (find_by (λ j. j.id) id w.db.jobs) w.db) (Same w.db) r
        → r.0 ≡ ok true
        → count_where (is_held_by client) r.1.db.jobs ≤ ceiling
    go (ok true, w1) p h = Claimed-le_ceiling id client ceiling now w.db w1.db u pos p
    go (ok false, w1) p h = cc
    go (err x, w1) p h = cc

module _ (P : Job → Type 0) where
  All-insert_by :
      (sooner : Job → Job → Bool) (j : Job) (js : List Job)
      → P j
      → All P js
      → All P (insert_by sooner j js)
  unfolding insert_by
  All-insert_by sooner j [] p a = (p, tt)
  All-insert_by sooner j (x ∷ xs) p a = elim (Bool-cases (sooner x j)) [
    | inl s ↦ rw s (a.0, All-insert_by sooner j xs p a.1)
    | inr s ↦ rw s (p, a)
  ]

  pub All-sort_by :
      (sooner : Job → Job → Bool) (js : List Job) → All P js → All P (sort_by sooner js)
  unfolding sort_by
  All-sort_by sooner [] a = tt
  All-sort_by sooner (j ∷ js) a =
      All-insert_by sooner j (sort_by sooner js) a.0 (All-sort_by sooner js a.1)

  pub All-take : (n : ℕ) (js : List Job) → All P js → All P (take n js)
  All-take zero js a = tt
  All-take (suc n) [] a = tt
  All-take (suc n) (j ∷ js) a = (a.0, All-take n js a.1)

pub All-select_where : (p : Job → Bool) (js : List Job) → All (λ j. p j ≡ true) (select_where p js)
unfolding select_where
All-select_where p [] = tt
All-select_where p (j ∷ js) = elim (Bool-cases (p j)) [
  | inl t ↦ rw t (t, All-select_where p js)
  | inr t ↦ rw t (All-select_where p js)
]

-- Every candidate is due, and of no client that was left out.
pub candidates-eligible :
    (now : ℕ) (excluded : List String) (d : Database)
    → All (λ j. is_eligible now excluded j ≡ true) (candidates now excluded d)
unfolding candidates
candidates-eligible now excluded d =
    let js : List Job = select_where (is_eligible now excluded) d.jobs in
    let P : Job → Type 0 = λ j. is_eligible now excluded j ≡ true in
    All-take P claim_batch (sort_by (is_sooner d.claims js) js) (
      All-sort_by P (is_sooner d.claims js) js (All-select_where (is_eligible now excluded) d.jobs))
