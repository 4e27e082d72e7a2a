-- ===== src/Worker/Fetch/Errors.antt =====
-- `pickResolveError`: which of several errors a job reports.
use tenta_cron.Prelude.{
  ◌≡◌, refl, Option, none, some, List, [], ◌∷◌, Bool-cases, Option-cases, inl, inr, if◌then◌else◌,
}
use tenta_cron.Worker.Process.{UpstreamError, is_context_err}
use tenta_cron.Worker.Fetch.{received_error, Task, task, pick_from, pick_resolve_error}

abbrev pub or_else : Option UpstreamError → Option UpstreamError → Option UpstreamError
or_else none o = o
or_else (some x) o = some x

abbrev pub if_genuine : Option UpstreamError → Option UpstreamError
if_genuine none = none
if_genuine (some x) = if is_context_err x then none else some x

-- The first error that is no context's, and the first error.
abbrev pub first_genuine : List Task → Option UpstreamError
first_genuine [] = none
first_genuine (task h s ∷ ts) = or_else (if_genuine (received_error s)) (first_genuine ts)

abbrev pub first_error : List Task → Option UpstreamError
first_error [] = none
first_error (task h s ∷ ts) = or_else (received_error s) (first_error ts)

or_else-none : (o : Option UpstreamError) → or_else o none ≡ o
or_else-none none = refl
or_else-none (some x) = refl

pick_from_lem :
    (fallback : Option UpstreamError) (ts : List Task)
    → pick_from fallback ts ≡ or_else (first_genuine ts) (or_else fallback (first_error ts))
unfolding pick_from
pick_from_lem fallback [] = rw (or_else-none fallback) refl
pick_from_lem fallback (task h s ∷ ts) = elim (Option-cases (received_error s)) [
  | inl e ↦ rw e (pick_from_lem fallback ts)
  | inr (x, e) ↦ elim (Bool-cases (is_context_err x)) [
    | inl g ↦ elim (Option-cases fallback) [
      | inl f ↦ rw (e, g, f) (pick_from_lem (some x) ts)
      | inr (y, f) ↦ rw (e, g, f) (pick_from_lem (some y) ts)
    ]
    | inr g ↦ rw (e, g) refl
  ]
]

-- Of the errors that the collector has received the job reports the first in document order that is
-- no context's, and where there is none the first in document order.
pub pick_resolve_error-first :
    (ts : List Task) → pick_resolve_error ts ≡ or_else (first_genuine ts) (first_error ts)
unfolding pick_resolve_error
pick_resolve_error-first ts = pick_from_lem none ts
