-- ===== src/Config/Accepted.antt =====
-- What a worker section and a list of API keys are once `Validate` has nothing to report on them.
use tenta_cron.Prelude.{
  ℕ, suc, ◌*◌, ◌<◌, ◌≤◌, ◌≡◌, refl, String, Bool, true, false, not, ◌&&◌, some, List, [], ◌∷◌, ◌++◌,
  ℤ, pos, negsuc, int_ltb, All, arith,
}
use tenta_cron.Worker.Backoff.{backoff, backoff_bounds}
use tenta_cron.Config.{
  Problem, report, is_positive, positive, WorkerConfig, worker, joined, base_above_max,
  worker_checks,
}

pub append_nil : (xs ys : List Problem) → xs ++ ys ≡ [] → (xs ≡ []) × (ys ≡ [])
append_nil [] ys h = (refl, h)
append_nil (x ∷ xs) ys h = let no : ⊥ = cc in elim no [ ]

pub joined_nil : (pss : List (List Problem)) → joined pss ≡ [] → All (λ ps. ps ≡ []) pss
joined_nil [] h = tt
joined_nil (ps ∷ pss) h = let both = append_nil ps (joined pss) h in (both.0, joined_nil pss both.1)

pub report_nil : (b : Bool) (p : Problem) → report b p ≡ [] → b ≡ false
report_nil false p h = refl
report_nil true p h = let no : ⊥ = cc in elim no [ ]

zero_above : (m : ℕ) → not (is_positive (pos m)) ≡ false → 0 < m
zero_above m h = ground arith

never_above : (m : ℕ) → not (is_positive (negsuc m)) ≡ true
never_above m = ground arith

abbrev Above : ℤ → Type 0
Above n = (m : ℕ) × (n ≡ pos m) × (0 < m)

positive_nil : (field : String) (n : ℤ) → positive field n ≡ [] → Above n
positive_nil field (pos m) h = (m, refl, zero_above m (report_nil (not (is_positive (pos m))) _ h))
positive_nil field (negsuc m) h =
    let no : ⊥ = cc (report_nil (not (is_positive (negsuc m))) _ h, never_above m) in elim no [ ]

not_above :
    (b m : ℕ)
    → 0 < b
    → 0 < m
    → (is_positive (pos b) && (is_positive (pos m) && int_ltb (pos m) (pos b))) ≡ false
    → b ≤ m
not_above b m h k e = ground arith

-- What the retries and the fetches rely on: the fetches that may run at once, and the backoff after
-- attempt `n + 1`, before the jitter and after it.
pub record Steady (w : WorkerConfig) (jitter : ℕ → ℕ) (n : ℕ) : Type 0 where
  pub fetches : ℕ
  pub base : ℕ
  pub longest : ℕ
  pub backed_off : ℕ
  pub fetches_eq : w.resolvent_concurrency ≡ pos fetches
  pub base_eq : w.backoff_base ≡ pos base
  pub longest_eq : w.backoff_max ≡ pos longest
  pub fetches_above : 0 < fetches
  pub base_above : 0 < base
  pub base_le : base ≤ longest
  pub backed_off_eq : backoff base longest (suc n) ≡ some backed_off
  pub backed_off_above : 0 < backed_off
  pub backed_off_le : backed_off ≤ longest
  pub delay_le : 5 * jitter backed_off ≤ 6 * longest

positive-Steady :
    (w : WorkerConfig) (jitter : ℕ → ℕ) (n : ℕ)
    → ((b : ℕ) → 5 * jitter b ≤ 6 * b)
    → Above w.resolvent_concurrency
    → Above w.backoff_base
    → Above w.backoff_max
    → ((is_positive w.backoff_base
          && (is_positive w.backoff_max && int_ltb w.backoff_max w.backoff_base))
        ≡ false)
    → Steady w jitter n
positive-Steady w jitter n j (c, ec, hc) (b, eb, hb) (m, em, hm) order =
    let (d, ed, hd, hl) = backoff_bounds b m n hm in
    record {
      fetches = c;
      base = b;
      longest = m;
      backed_off = d;
      fetches_eq = ec;
      base_eq = eb;
      longest_eq = em;
      fetches_above = hc;
      base_above = hb;
      base_le = not_above b m hb hm (rw (eb, em) at order);
      backed_off_eq = ed;
      backed_off_above = hd;
      backed_off_le = hl;
      delay_le = omega (arith, j d);
    }

-- A worker section with nothing to report lets at least one fetch run; its backoff starts from a
-- base that is positive and within the cap; before the jitter, the backoff after each attempt, however
-- many there were, is positive and within the cap, and the delay that a jitter of at most a fifth
-- makes of it exceeds the cap by at most a fifth.
pub worker-Steady :
    (w : WorkerConfig) (jitter : ℕ → ℕ) (n : ℕ)
    → ((b : ℕ) → 5 * jitter b ≤ 6 * b)
    → worker w ≡ []
    → Steady w jitter n
unfolding worker
worker-Steady w jitter n j h =
    let checks = joined_nil (worker_checks w) h in
    let backoffs = checks.1.1.1.1 in
    positive-Steady w jitter n j
      (positive_nil "worker.resolvent_concurrency" w.resolvent_concurrency checks.1.0)
      (positive_nil "worker.backoff_base" w.backoff_base backoffs.0)
      (positive_nil "worker.backoff_max" w.backoff_max backoffs.1.0)
      (report_nil _ base_above_max backoffs.1.1.1.1.0)
