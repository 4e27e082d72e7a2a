-- ===== src/Config/Budget.antt =====
-- internal/config/validate.go: `longestResolventTimeout` and `timeoutBudget`, the rule that a job's
-- deadline covers the call of its target and the longest fetch before it. Names are only printed.
use tenta_cron.Prelude.{
  ℕ, zero, suc, ◌+◌, ◌-◌, ◌%◌, ◌^◌, ◌<◌, ◌≤◌, ◌≡◌, Bool, true, false, not, ◌&&◌, ◌||◌, Option, none,
  some, String, str_eq, List, [], ◌∷◌, ℤ, pos, negsuc, pos_part, int_ltb, ltb, All, arith,
  if◌then◌else◌,
}
use tenta_cron.Config.{Problem, deadline_too_short, report, is_positive}
use tenta_cron.Config.Accepted.{report_nil}

-- The fields of `config.Target` and of `config.Resolvent` that the rule reads.
pub record BudgetTarget : Type 0 where
  pub timeout : ℤ
  pub job_timeout : ℤ
  pub is_proxy : Bool

pub record BudgetResolvent : Type 0 where
  pub timeout : ℤ
  pub target : String

-- `targets[name].Timeout`: zero where there is no such target.
abbrev pub timeout_or : Option BudgetTarget → ℤ
timeout_or none = pos 0
timeout_or (some t) = t.timeout

-- The time that one call of a resolvent may take.
unfoldable pub call_time : (String → Option BudgetTarget) → BudgetResolvent → ℤ
call_time targets r = if str_eq r.target "" then r.timeout else timeout_or (targets r.target)

-- The loop of `longestResolventTimeout`, from the longest so far.
unfoldable pub longest_from : (String → Option BudgetTarget) → ℤ → List BudgetResolvent → ℤ
longest_from targets longest [] = longest
longest_from targets longest (r ∷ rs) =
    longest_from targets
      (if int_ltb longest (call_time targets r) then call_time targets r else longest) rs

-- `longestResolventTimeout`
unfoldable pub longest_resolvent_timeout : (String → Option BudgetTarget) → List BudgetResolvent → ℤ
longest_resolvent_timeout targets rs = longest_from targets (pos 0) rs

-- The addition of two int64, in two's complement.
abbrev pub to_bits : ℤ → ℕ
to_bits (pos n) = n % 2 ^ 64
to_bits (negsuc n) = 2 ^ 64 - suc (n % 2 ^ 64)

abbrev pub from_bits : ℕ → ℤ
from_bits b = if ltb b (2 ^ 63) then pos b else negsuc (2 ^ 64 - suc b)

unfoldable pub add64 : ℤ → ℤ → ℤ
add64 a b = from_bits ((to_bits a + to_bits b) % 2 ^ 64)

-- The deadline of an attempt: a target's own, or else that of the worker section.
unfoldable pub budget_of : BudgetTarget → ℤ → ℤ
budget_of t fallback = elim t.job_timeout [
  | pos n ↦ elim n [ zero ↦ fallback | suc m ↦ pos (suc m) ]
  | negsuc n ↦ negsuc n
]

-- What an attempt needs: the call, and before it the longest fetch unless the target is a proxy.
unfoldable pub need_of : BudgetTarget → ℤ → ℤ
need_of t longest =
    if not t.is_proxy && is_positive longest then add64 t.timeout longest else t.timeout

-- `timeoutBudget`
unfoldable pub timeout_budget : BudgetTarget → ℤ → ℤ → List Problem
timeout_budget t fallback longest =
    if (not (is_positive (budget_of t fallback)) || not (is_positive t.timeout))
    then []
    else report (int_ltb (budget_of t fallback) (need_of t longest)) deadline_too_short

longer :
    (l c : ℤ)
    → (pos_part l ≤ pos_part (if int_ltb l c then c else l))
      × (pos_part c ≤ pos_part (if int_ltb l c then c else l))
longer (pos l) (pos c) = ground arith
longer (pos l) (negsuc c) = ground arith
longer (negsuc l) (pos c) = ground arith
longer (negsuc l) (negsuc c) = ground arith

-- The call of every resolvent in the list is at most as long as the longest.
longest_from-longest :
    (targets : String → Option BudgetTarget) (l : ℤ) (rs : List BudgetResolvent)
    → (pos_part l ≤ pos_part (longest_from targets l rs))
      × All (λ r. pos_part (call_time targets r) ≤ pos_part (longest_from targets l rs)) rs
unfolding longest_from
longest_from-longest targets l [] = (omega arith, tt)
longest_from-longest targets l (r ∷ rs) =
    let c = call_time targets r in
    let (next, rest) = longest_from-longest targets (if int_ltb l c then c else l) rs in
    let (old, own) = longer l c in (omega arith, (omega arith, rest))

from_bits_small : (n : ℕ) → n < 2 ^ 63 → from_bits n ≡ pos n
from_bits_small n h = ground arith

add_small : (a b : ℕ) → a + b < 2 ^ 63 → (a % 2 ^ 64 + b % 2 ^ 64) % 2 ^ 64 ≡ a + b
add_small a b h = omega arith

add64_small : (a b : ℕ) → a + b < 2 ^ 63 → add64 (pos a) (pos b) ≡ pos (a + b)
unfolding add64
add64_small a b h = rw (add_small a b h) (from_bits_small (a + b) h)

plus_zero : (a : ℕ) → pos a ≡ pos (a + 0)
plus_zero a = grind arith

positive_suc : (n : ℕ) → is_positive (pos (suc n)) ≡ true
positive_suc n = ground arith

positive_negsuc : (n : ℕ) → is_positive (negsuc n) ≡ false
positive_negsuc n = ground arith

need_above :
    (t : BudgetTarget) (a : ℕ) (l : ℤ)
    → t.timeout ≡ pos a
    → t.is_proxy ≡ false
    → a + pos_part l < 2 ^ 63
    → need_of t l ≡ pos (a + pos_part l)
unfolding need_of
need_above t a (pos zero) e p h = rw (e, p) (plus_zero a)
need_above t a (pos (suc l)) e p h = rw (e, p, positive_suc l) (add64_small a (suc l) h)
need_above t a (negsuc l) e p h = rw (e, p, positive_negsuc l) (plus_zero a)

positive_of : (n : ℕ) → 0 < n → is_positive (pos n) ≡ true
positive_of n h = ground arith

within : (b n : ℕ) → int_ltb (pos b) (pos n) ≡ false → n ≤ b
within b n h = ground arith

-- The deadline covers what the attempt needs, where both are above zero.
budget_above_need :
    (t : BudgetTarget) (fallback l : ℤ) (a b : ℕ)
    → t.timeout ≡ pos a
    → 0 < a
    → budget_of t fallback ≡ pos b
    → 0 < b
    → t.is_proxy ≡ false
    → a + pos_part l < 2 ^ 63
    → timeout_budget t fallback l ≡ []
    → a + pos_part l ≤ b
unfolding timeout_budget
budget_above_need t fallback l a b ea ha eb hb proxy fits h = within b (a + pos_part l) (
    report_nil (int_ltb (pos b) (pos (a + pos_part l))) deadline_too_short
      (rw (need_above t a l ea proxy fits, eb, ea, positive_of b hb, positive_of a ha) at h))

deadline_above :
    (targets : String → Option BudgetTarget) (a b n : ℕ) (rs : List BudgetResolvent)
    → a + n ≤ b
    → All (λ r. pos_part (call_time targets r) ≤ n) rs
    → All (λ r. a + pos_part (call_time targets r) ≤ b) rs
deadline_above targets a b n [] h below = tt
deadline_above targets a b n (r ∷ rs) h (own, below) =
    (omega arith, deadline_above targets a b n rs h below)

-- A target that is no proxy, with a positive call timeout and a positive deadline, and with nothing
-- to report: as long as an int64 holds the sum with the longest fetch, the deadline covers the call
-- of the target, and together with it a call of any resolvent of the configuration.
pub timeout_budget-covers :
    (targets : String → Option BudgetTarget) (rs : List BudgetResolvent)
    → (t : BudgetTarget) (fallback : ℤ) (a b : ℕ) → t.timeout ≡ pos a
    → 0 < a
    → budget_of t fallback ≡ pos b
    → 0 < b
    → t.is_proxy ≡ false
    → a + pos_part (longest_resolvent_timeout targets rs) < 2 ^ 63
    → timeout_budget t fallback (longest_resolvent_timeout targets rs) ≡ []
    → (a ≤ b) × All (λ r. a + pos_part (call_time targets r) ≤ b) rs
unfolding longest_resolvent_timeout
timeout_budget-covers targets rs t fallback a b ea ha eb hb proxy fits h =
    let longest = longest_from targets (pos 0) rs in
    let covered = budget_above_need t fallback longest a b ea ha eb hb proxy fits h in
    (
      omega arith,
      deadline_above targets a b (pos_part longest) rs covered
          (longest_from-longest targets (pos 0) rs).1,
    )
