-- ===== src/Store/Listing.antt =====
-- internal/store/jobs.go: `ListJobs` with its filter and cursor, and `CountByState`. SQLite's LIKE
-- is a parameter.
pub mod Filter
use tenta_cron.Prelude.{
  ℕ, String, Bool, true, false, ◌&&◌, ◌||◌, Option, none, some, List, [], ◌∷◌, ◌==◌, ltb, leb,
  str_eq, select_where, count_where, take,
}
use tenta_cron.Store.Model.{State, same_state, ts, Job, Database}
use tenta_cron.Store.Sql.{M, query}
use tenta_cron.Store.Claim.{sort_by}

-- The last item that a client has seen.
pub record Cursor : Type 0 where
  pub created_at : ℕ
  pub seq : ℕ

pub record ListFilter : Type 0 where
  pub state : Option State
  pub client : Option String
  pub target : Option String
  pub idempotency_prefix : Option String
  pub since : Option ℕ
  pub until : Option ℕ
  pub before : Option Cursor
  pub limit : ℕ

abbrev pub state_passes : Option State → State → Bool
state_passes none s = true
state_passes (some t) s = same_state s t

abbrev pub text_passes : Option String → String → Bool
text_passes none s = true
text_passes (some t) s = str_eq s t

-- `idempotency_key LIKE ?`; NULL is like nothing.
abbrev pub key_passes : (String → String → Bool) → Option String → Option String → Bool
key_passes like none key = true
key_passes like (some prefix) none = false
key_passes like (some prefix) (some key) = like prefix key

abbrev pub since_passes : Option ℕ → ℕ → Bool
since_passes none created = true
since_passes (some t) created = leb (ts t) created

abbrev pub until_passes : Option ℕ → ℕ → Bool
until_passes none created = true
until_passes (some t) created = ltb created (ts t)

-- Strictly older than the cursor, by time and then by insertion.
abbrev pub before_passes : Option Cursor → ℕ → ℕ → Bool
before_passes none created seq = true
before_passes (some c) created seq =
    ltb created (ts c.created_at) || (created == ts c.created_at && ltb seq c.seq)

-- `clauses`, joined by AND.
abbrev pub passes : (String → String → Bool) → ListFilter → Job → Bool
passes like f j =
    state_passes f.state j.state
    && text_passes f.client j.client
    && text_passes f.target j.target
    && key_passes like f.idempotency_prefix j.idempotency_key
    && since_passes f.since j.created_at
    && until_passes f.until j.created_at
    && before_passes f.before j.created_at j.seq

-- `ORDER BY created_at DESC, rowid DESC`
abbrev pub is_newer : Job → Job → Bool
is_newer a b = ltb b.created_at a.created_at || (a.created_at == b.created_at && ltb b.seq a.seq)

unfoldable pub page : (String → String → Bool) → ListFilter → Database → List Job
page like f d = take f.limit (sort_by is_newer (select_where (passes like f) d.jobs))

-- `ListJobs`
unfoldable pub list_jobs : (String → String → Bool) → ListFilter → M (List Job)
list_jobs like f = query (page like f)

-- `CountByState`, as a function of the state.
unfoldable pub count_by_state : M (State → ℕ)
count_by_state = query (λ d s. count_where (λ j. same_state j.state s) d.jobs)
