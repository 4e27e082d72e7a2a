-- ===== src/Store/Invariant.antt =====
-- What holds of the tables of internal/store between any two of its methods: the columns of a job
-- fit its state, its events are a path through the state diagram that ends in its state, and it has
-- a delivery exactly when it is terminal and asked for a callback.

pub mod Keeps
pub mod Transit
pub mod Methods
pub mod Create
pub mod Claim
pub mod Touch
pub mod Recovery
pub mod Retention
pub mod Deliveries
pub mod Others
use tenta_cron.Prelude.{
  ℕ, ◌≤◌, String, ◌≡◌, refl, Bool, true, false, ◌&&◌, ◌||◌, not, Option, none, some, List, [], ◌∷◌,
  ◌++◌, if◌then◌else◌, arith, is_some, str_eq, select_where, count_where,
}
use tenta_cron.Store.Create.{has_key}
use tenta_cron.Prelude.Tables.{find_by, UniqueBy}
use tenta_cron.Store.Model.{
  State, received, resolving, forwarding, awaiting_target, completed, failed, cancelled,
  is_terminal, same_state, is_held, Job, Event, Delivery, Database,
}

-- The state diagram: a terminal state is left by nothing.
abbrev pub legal : State → State → Bool
legal s resolving = same_state s received
legal s forwarding = same_state s resolving
legal s awaiting_target = same_state s forwarding
legal s cancelled = not (is_terminal s) && not (is_held s)
legal s received = not (is_terminal s)
legal s completed = not (is_terminal s)
legal s failed = not (is_terminal s)

-- A first event makes the job received.
abbrev pub legal_from : Option State → State → Bool
legal_from none to = same_state to received
legal_from (some s) to = legal s to

pub record RowIsValid (j : Job) : Type 0 where
  pub done : is_some j.completed_at ≡ is_terminal j.state
  pub idle : is_terminal j.state ≡ true → j.next_attempt_at ≡ none
  pub held : is_held j.state ≡ true → j.next_attempt_at ≡ none
  pub due : same_state j.state awaiting_target ≡ true → is_some j.next_attempt_at ≡ true
  pub deadline : same_state j.state awaiting_target ≡ true → is_some j.poll_deadline ≡ true
  pub target_job : same_state j.state awaiting_target ≡ true → is_some j.target_job_id ≡ true
  pub coded : same_state j.state failed ≡ true → is_some j.error_code ≡ true
  pub answered : same_state j.state completed ≡ true → is_some j.target_status ≡ true

-- The events of one job, oldest first: `ListEvents`.
unfoldable pub history : String → List Event → List Event
history id es = select_where (λ e. str_eq e.job_id id) es

-- A path through the diagram from `s`.
abbrev pub PathFrom : Option State → List Event → Type 0
PathFrom s [] = Unit
PathFrom s (e ∷ es) =
    (e.from_state ≡ s) × (legal_from s e.to_state ≡ true) × PathFrom (some e.to_state) es

-- Where the path ends.
abbrev pub end_of : Option State → List Event → Option State
end_of s [] = s
end_of s (e ∷ es) = end_of (some e.to_state) es

-- A key that no job has is nowhere; a job's row, events and delivery fit one another.
abbrev pub Linked : Option Job → List Event → Option Delivery → Type 0
Linked none es v = (es ≡ []) × (v ≡ none)
Linked (some j) es v =
    RowIsValid j
    × PathFrom none es
    × (end_of none es ≡ some j.state)
    × (is_some v ≡ (is_terminal j.state && is_some j.callback_url))

abbrev pub LinkedAt : String → Database → Type 0
LinkedAt k d =
    Linked (find_by (λ j. j.id) k d.jobs) (history k d.events)
      (find_by (λ v. v.job_id) k d.deliveries)

-- An id, and a client's idempotency key, name one job at most.
pub record IsValid (d : Database) : Type 0 where
  pub at : (k : String) → LinkedAt k d
  pub unique : UniqueBy (λ j. j.id) d.jobs
  pub once : (client key : String) → count_where (has_key client key) d.jobs ≤ 1

module _ (k : String) where
  pub history-append_one :
      (es : List Event) (x : Event)
      → history k (es ++ x ∷ [])
        ≡ (if str_eq x.job_id k then history k es ++ x ∷ [] else history k es)
  unfolding history select_where
  history-append_one [] x = ground arith
  history-append_one (y ∷ es) x = ground (arith, history-append_one es x)

pub PathFrom-append_one :
    (s : Option State) (es : List Event) (x : Event)
    → PathFrom s es
    → x.from_state ≡ end_of s es
    → legal_from (end_of s es) x.to_state ≡ true
    → PathFrom s (es ++ x ∷ [])
PathFrom-append_one s [] x p f l = (f, l, tt)
PathFrom-append_one s (y ∷ es) x p f l =
    (p.0, p.1, PathFrom-append_one (some y.to_state) es x p.2 f l)

pub end_of-append_one :
    (s : Option State) (es : List Event) (x : Event) → end_of s (es ++ x ∷ []) ≡ some x.to_state
end_of-append_one s [] x = refl
end_of-append_one s (y ∷ es) x = end_of-append_one (some y.to_state) es x
