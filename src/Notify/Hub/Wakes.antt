-- ===== src/Notify/Hub/Wakes.antt =====
-- A notification wakes its waiters and forgets them (internal/notify/hub.go).
use tenta_cron.Prelude.{
  ℕ, String, ◌≡◌, refl, Bool, false, ◌&&◌, ◌||◌, not, List, [], ◌∷◌, ◌++◌, map, arith, ◌==◌, str_eq,
  select_where, Bool-cases, inl, inr,
}
use tenta_cron.Notify.Hub.{Waiter, Hub, notify}

abbrev pub holds : ℕ → List ℕ → Bool
holds c [] = false
holds c (x ∷ xs) = x == c || holds c xs

abbrev pub has_waiter : String → ℕ → List Waiter → Bool
has_waiter id c [] = false
has_waiter id c (x ∷ xs) = (str_eq x.id id && x.channel == c) || has_waiter id c xs

-- The channel is registered for the job.
abbrev pub is_waiting : String → ℕ → Hub → Bool
is_waiting id c h = has_waiter id c h.waiters

abbrev pub is_closed : ℕ → Hub → Bool
is_closed c h = holds c h.closed

holds-++ : (c : ℕ) (xs ys : List ℕ) → holds c (xs ++ ys) ≡ (holds c xs || holds c ys)
holds-++ c [] ys = refl
holds-++ c (x ∷ xs) ys = ground (arith, holds-++ c xs ys)

channels-of :
    (id : String) (c : ℕ) (xs : List Waiter)
    → holds c (map (λ x. x.channel) (select_where (λ x. str_eq x.id id) xs)) ≡ has_waiter id c xs
unfolding select_where
channels-of id c [] = refl
channels-of id c (x ∷ xs) = elim (Bool-cases (str_eq x.id id)) [
  | inl e ↦ rw (e, channels-of id c xs) refl
  | inr e ↦ rw (e, channels-of id c xs) refl
]

gone :
    (id : String) (c : ℕ) (xs : List Waiter)
    → has_waiter id c (select_where (λ x. not (str_eq x.id id)) xs) ≡ false
unfolding select_where
gone id c [] = refl
gone id c (x ∷ xs) = elim (Bool-cases (str_eq x.id id)) [
  | inl e ↦ rw (e, gone id c xs) refl
  | inr e ↦ rw (e, gone id c xs, e) refl
]

-- After a notification for a job, a channel is closed exactly when it was closed before or
-- registered for the job, and no channel is registered for the job.
pub notify-wakes :
    (id : String) (c : ℕ) (h : Hub)
    → (is_closed c (notify id h) ≡ (is_closed c h || is_waiting id c h))
      × (is_waiting id c (notify id h) ≡ false)
unfolding notify
notify-wakes id c h = (
  rw
      (
        holds-++ c h.closed (map (λ x. x.channel) (select_where (λ x. str_eq x.id id) h.waiters)),
        channels-of id c h.waiters,
      )
      refl,
  gone id c h.waiters,
)
