-- ===== src/Store/Listing/Filter.antt =====
-- What a page of jobs holds (internal/store/jobs.go, `ListJobs`).
use tenta_cron.Prelude.{
  ℕ, zero, suc, ◌≤◌, String, ◌≡◌, Bool, true, List, [], ◌∷◌, All, arith, select_where, length, take,
}
use tenta_cron.Store.Model.{Job, Database}
use tenta_cron.Store.Claim.{sort_by}
use tenta_cron.Store.Claim.Ceiling.{All-take, All-sort_by, All-select_where}
use tenta_cron.Store.Listing.{ListFilter, passes, is_newer, page}

length-take_le : (n : ℕ) (js : List Job) → length (take n js) ≤ n
length-take_le zero js = omega arith
length-take_le (suc n) [] = omega arith
length-take_le (suc n) (j ∷ js) = omega (arith, length-take_le n js)

-- A page holds no more jobs than its limit, and every job on it passes every clause of the filter.
pub page-passes :
    (like : String → String → Bool) (f : ListFilter) (d : Database)
    → (length (page like f d) ≤ f.limit) × All (λ j. passes like f j ≡ true) (page like f d)
unfolding page
page-passes like f d =
    let js : List Job = select_where (passes like f) d.jobs in
    let P : Job → Type 0 = λ j. passes like f j ≡ true in
    (
      length-take_le f.limit (sort_by is_newer js),
      All-take P f.limit (sort_by is_newer js)
          (All-sort_by P is_newer js (All-select_where (passes like f) d.jobs)),
    )
