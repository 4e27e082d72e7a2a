-- ===== src/Worker/Fetch/Order.antt =====
-- `fetchAll` under every interleaving: what the tasks hold, in document order.
use tenta_cron.Prelude.{
  ℕ, zero, suc, ◌≡◌, refl, ◌∙◌, ap, String, Bool, true, false, ◌||◌, List, [], ◌∷◌, ◌⊎◌, inl, inr,
  is_some,
}
use tenta_cron.Worker.Fetch.{
  Outcome, fetched, failed, error_of, skipped, Status, waiting, flying, sent, received, Task, task,
  start_next, update_at, is_stopped, finish_task, collect_task,
}

-- What may stand behind a task with this outcome: anything loose behind a failure.
abbrev pub After : Outcome → Type 0 → Type 0 → Type 0
After (fetched body cached) R L = R
After (failed x) R L = L

-- The first task of an ordered list: `W`, `R` and `L` are what the rest may be.
abbrev pub HeadOk : Outcome → Status → Type 0 → Type 0 → Type 0 → Type 0
HeadOk o waiting W R L = W
HeadOk o flying W R L = After o R L
HeadOk o (sent p) W R L = (p ≡ o) × After o R L
HeadOk o (received p) W R L = (p ≡ o) × After o R L

-- Its own outcome or a skip.
abbrev pub LooseAt : Outcome → Status → Type 0
LooseAt o waiting = Unit
LooseAt o flying = Unit
LooseAt o (sent p) = (p ≡ o) ⊎ (p ≡ failed skipped)
LooseAt o (received p) = (p ≡ o) ⊎ (p ≡ failed skipped)

abbrev pub AllWaiting : List Task → Type 0
AllWaiting [] = Unit
AllWaiting (task h s ∷ ts) = (s ≡ waiting) × AllWaiting ts

module _ (outcome : String → Outcome) where
  abbrev pub Loose : List Task → Type 0
  Loose [] = Unit
  Loose (task h s ∷ ts) = LooseAt (outcome h) s × Loose ts

  -- Up to the first resolvent that fails, every task has its own outcome.
  abbrev pub Ordered : List Task → Type 0
  Ordered [] = Unit
  Ordered (task h s ∷ ts) = HeadOk (outcome h) s (AllWaiting ts) (Ordered ts) (Loose ts)

pub After-map :
    (o : Outcome) {R R' L L' : Type 0} → (R → R') → (L → L') → After o R L → After o R' L'
After-map (fetched body cached) f g a = f a
After-map (failed x) f g a = g a

HeadOk-map :
    (o : Outcome) (s : Status) {W W' R R' L L' : Type 0}
    → (W → W')
    → (R → R')
    → (L → L')
    → HeadOk o s W R L
    → HeadOk o s W' R' L'
HeadOk-map o waiting e f g h = e h
HeadOk-map o flying e f g h = After-map o f g h
HeadOk-map o (sent p) e f g h = (h.0, After-map o f g h.1)
HeadOk-map o (received p) e f g h = (h.0, After-map o f g h.1)

or_right : (b : Bool) {c : Bool} → c ≡ true → (b || c) ≡ true
or_right true h = refl
or_right false h = h

-- A step of one task that leaves what stands there in order.
pub record KeepsTask (outcome : String → Outcome) (u : String → Status → Status) : Type 1 where
  pub head :
      (h : String) (s : Status) (W R L : Type 0)
      → HeadOk (outcome h) s W R L
      → HeadOk (outcome h) (u h s) W R L
  pub loose : (h : String) (s : Status) → LooseAt (outcome h) s → LooseAt (outcome h) (u h s)
  pub waits : (h : String) → u h waiting ≡ waiting

module _ (outcome : String → Outcome) where
  pub finish_task-KeepsTask : KeepsTask outcome (finish_task outcome)
  finish_task-KeepsTask = record { head = head; loose = loose; waits = λ h. refl }
    where
      head :
          (h : String) (s : Status) (W R L : Type 0)
          → HeadOk (outcome h) s W R L
          → HeadOk (outcome h) (finish_task outcome h s) W R L
      head h waiting W R L k = k
      head h flying W R L k = (refl, k)
      head h (sent o) W R L k = k
      head h (received o) W R L k = k

      loose :
          (h : String) (s : Status)
          → LooseAt (outcome h) s
          → LooseAt (outcome h) (finish_task outcome h s)
      loose h waiting k = k
      loose h flying k = inl refl
      loose h (sent o) k = k
      loose h (received o) k = k

  pub collect_task-KeepsTask : KeepsTask outcome collect_task
  collect_task-KeepsTask = record { head = head; loose = loose; waits = λ h. refl }
    where
      head :
          (h : String) (s : Status) (W R L : Type 0)
          → HeadOk (outcome h) s W R L
          → HeadOk (outcome h) (collect_task h s) W R L
      head h waiting W R L k = k
      head h flying W R L k = k
      head h (sent o) W R L k = k
      head h (received o) W R L k = k

      loose :
          (h : String) (s : Status) → LooseAt (outcome h) s → LooseAt (outcome h) (collect_task h s)
      loose h waiting k = k
      loose h flying k = k
      loose h (sent o) k = k
      loose h (received o) k = k

  module _ {u : String → Status → Status} (keeps : KeepsTask outcome u) where
    AllWaiting-update_at : (i : ℕ) (ts : List Task) → AllWaiting ts → AllWaiting (update_at u i ts)
    unfolding update_at
    AllWaiting-update_at i [] a = a
    AllWaiting-update_at zero (task h s ∷ ts) a = (ap (u h) a.0 ∙ keeps.waits h, a.1)
    AllWaiting-update_at (suc i) (task h s ∷ ts) a = (a.0, AllWaiting-update_at i ts a.1)

    Loose-update_at : (i : ℕ) (ts : List Task) → Loose outcome ts → Loose outcome (update_at u i ts)
    unfolding update_at
    Loose-update_at i [] a = a
    Loose-update_at zero (task h s ∷ ts) a = (keeps.loose h s a.0, a.1)
    Loose-update_at (suc i) (task h s ∷ ts) a = (a.0, Loose-update_at i ts a.1)

    pub Ordered-update_at :
        (i : ℕ) (ts : List Task) → Ordered outcome ts → Ordered outcome (update_at u i ts)
    unfolding update_at
    Ordered-update_at i [] a = a
    Ordered-update_at zero (task h s ∷ ts) a = keeps.head h s _ _ _ a
    Ordered-update_at (suc i) (task h s ∷ ts) a =
        HeadOk-map (outcome h) s (AllWaiting-update_at i ts) (Ordered-update_at i ts)
          (Loose-update_at i ts) a

  AllWaiting-Loose : (ts : List Task) → AllWaiting ts → Loose outcome ts
  AllWaiting-Loose [] a = a
  AllWaiting-Loose (task h waiting ∷ ts) a = (tt, AllWaiting-Loose ts a.1)
  AllWaiting-Loose (task h flying ∷ ts) a = (tt, AllWaiting-Loose ts a.1)
  AllWaiting-Loose (task h (sent o) ∷ ts) a = let no : ⊥ = cc (a.0) in elim no [ ]
  AllWaiting-Loose (task h (received o) ∷ ts) a = let no : ⊥ = cc (a.0) in elim no [ ]

  pub AllWaiting-Ordered : (ts : List Task) → AllWaiting ts → Ordered outcome ts
  AllWaiting-Ordered [] a = a
  AllWaiting-Ordered (task h waiting ∷ ts) a = a.1
  AllWaiting-Ordered (task h flying ∷ ts) a = let no : ⊥ = cc (a.0) in elim no [ ]
  AllWaiting-Ordered (task h (sent o) ∷ ts) a = let no : ⊥ = cc (a.0) in elim no [ ]
  AllWaiting-Ordered (task h (received o) ∷ ts) a = let no : ⊥ = cc (a.0) in elim no [ ]

  AllWaiting-After :
      (o : Outcome) (ts : List Task)
      → AllWaiting ts
      → After o (Ordered outcome ts) (Loose outcome ts)
  AllWaiting-After (fetched body cached) ts a = AllWaiting-Ordered ts a
  AllWaiting-After (failed x) ts a = AllWaiting-Loose ts a

  -- A list in which every task waits has no error.
  AllWaiting-is_stopped : (ts : List Task) → AllWaiting ts → is_stopped ts ≡ false
  unfolding is_stopped
  AllWaiting-is_stopped [] a = refl
  AllWaiting-is_stopped (task h s ∷ ts) a = rw (a.0, AllWaiting-is_stopped ts a.1) refl

  Loose-start_next :
      (s : Status) (ts : List Task)
      → ((o : Outcome) → LooseAt o s)
      → Loose outcome ts
      → Loose outcome (start_next s ts)
  unfolding start_next
  Loose-start_next s [] l a = a
  Loose-start_next s (task h waiting ∷ ts) l a = (l (outcome h), a.1)
  Loose-start_next s (task h flying ∷ ts) l a = (a.0, Loose-start_next s ts l a.1)
  Loose-start_next s (task h (sent o) ∷ ts) l a = (a.0, Loose-start_next s ts l a.1)
  Loose-start_next s (task h (received o) ∷ ts) l a = (a.0, Loose-start_next s ts l a.1)

  pub Ordered-start_flying :
      (ts : List Task) → Ordered outcome ts → Ordered outcome (start_next flying ts)
  unfolding start_next
  Ordered-start_flying [] a = a
  Ordered-start_flying (task h waiting ∷ ts) a = AllWaiting-After (outcome h) ts a
  Ordered-start_flying (task h flying ∷ ts) a =
      After-map (outcome h) (Ordered-start_flying ts) (Loose-start_next flying ts (λ o. tt)) a
  Ordered-start_flying (task h (sent o) ∷ ts) a = (
    a.0,
    After-map (outcome h) (Ordered-start_flying ts) (Loose-start_next flying ts (λ o. tt)) a.1,
  )
  Ordered-start_flying (task h (received o) ∷ ts) a = (
    a.0,
    After-map (outcome h) (Ordered-start_flying ts) (Loose-start_next flying ts (λ o. tt)) a.1,
  )

  skip_behind :
      (o : Outcome) (ts : List Task)
      → (is_some (error_of o) || is_stopped ts) ≡ true
      → (is_stopped ts ≡ true
          → Ordered outcome ts
          → Ordered outcome (start_next (sent (failed skipped)) ts))
      → After o (Ordered outcome ts) (Loose outcome ts)
      → After o
          (Ordered outcome (start_next (sent (failed skipped)) ts))
          (Loose outcome (start_next (sent (failed skipped)) ts))
  skip_behind (fetched body cached) ts stop ih a = ih stop a
  skip_behind (failed x) ts stop ih a =
      Loose-start_next (sent (failed skipped)) ts (λ o. inr refl) a

  pub Ordered-start_skipped :
      (ts : List Task)
      → is_stopped ts ≡ true
      → Ordered outcome ts
      → Ordered outcome (start_next (sent (failed skipped)) ts)
  unfolding start_next is_stopped
  Ordered-start_skipped [] stop a = a
  Ordered-start_skipped (task h waiting ∷ ts) stop a =
      let no : ⊥ = cc (AllWaiting-is_stopped ts a) in elim no [ ]
  Ordered-start_skipped (task h flying ∷ ts) stop a =
      skip_behind (outcome h) ts (or_right _ stop) (Ordered-start_skipped ts) a
  Ordered-start_skipped (task h (sent o) ∷ ts) stop a =
      (a.0, skip_behind (outcome h) ts (or_right _ stop) (Ordered-start_skipped ts) a.1)
  Ordered-start_skipped (task h (received o) ∷ ts) stop a =
      (a.0, skip_behind (outcome h) ts (rw (← a.0) stop) (Ordered-start_skipped ts) a.1)
