-- ===== src/Store/Schedules.antt =====
-- internal/store/schedules.go: `CreateSchedule`, `GetSchedule`, `DeleteSchedule`, `DueSchedules` and
-- `AdvanceSchedule`.
use mathlib.Core.Option
pub mod Advance
use tenta_cron.Store.Claim.{is_due, same_time}
use tenta_cron.Prelude.{
  ℕ, ◌+◌, ℤ, int_ltb, String, Bool, true, false, ◌&&◌, not, Option, none, some, List, [], ◌∷◌, ◌++◌,
  if◌then◌else◌, ◌||◌, ◌==◌, ltb, leb, is_some, str_eq, is_text, select_where, count_where,
  find_where, take,
}
use tenta_cron.Prelude.Tables.{find_by, update_by}
use tenta_cron.Store.Model.{
  Error, not_found, idempotency_conflict, schedule_limit, db_error, ts, CacheMode, cache_default,
  cache_use, cache_bypass, cache_refresh, Schedule, Database,
}
use tenta_cron.Store.Sql.{
  Result, ok, err, M, pure, raise, statement, query, on_error, time_now, begin, rollback, commit,
  fail_if, ◌>>=◌, ◌>>◌,
}

abbrev pub mode_code : CacheMode → ℕ
mode_code cache_default = 0
mode_code cache_use = 1
mode_code cache_bypass = 2
mode_code cache_refresh = 3

abbrev same_int : ℤ → ℤ → Bool
same_int a b = not (int_ltb a b) && not (int_ltb b a)

-- `sameAs`
abbrev pub same_as : Schedule → Schedule → Bool
same_as a b =
    str_eq a.target b.target
    && str_eq a.payload b.payload
    && str_eq a.cron b.cron
    && str_eq a.timezone b.timezone
    && same_int a.priority b.priority
    && mode_code a.options == mode_code b.options

-- `WHERE client = ? AND idempotency_key = ?`
abbrev pub has_schedule_key : String → String → Schedule → Bool
has_schedule_key client key s = str_eq s.client client && is_text s.idempotency_key key

abbrev pub find_schedule_by_key : String → Option String → List Schedule → Option Schedule
find_schedule_by_key client none ss = none
find_schedule_by_key client (some key) ss = find_where (has_schedule_key client key) ss

abbrev pub is_of_client : String → Schedule → Bool
is_of_client client s = str_eq s.client client

-- The row that the `INSERT` writes.
abbrev pub schedule_row : Schedule → ℕ → Schedule
schedule_row s now = record s {
  enabled = true;
  next_run_at = Option.map ts s.next_run_at;
  last_run_at = none;
  last_job_id = none;
  created_at = ts now;
  updated_at = ts now;
}

-- `id TEXT PRIMARY KEY` and the unique index on the keys.
abbrev pub insert_schedule : Schedule → ℕ → Database → Result (Unit {0} × Database)
insert_schedule s now d =
    if is_some (find_by (λ s. s.id) s.id d.schedules)
      || is_some (find_schedule_by_key s.client s.idempotency_key d.schedules)
    then err db_error
    else ok (tt, record d { schedules = d.schedules ++ schedule_row s now ∷ [] })

-- A schedule of its own, with the time it was created at, or the stored one.
pub data StoredSchedule : Type 0 where
  created : Schedule → ℕ → StoredSchedule
  replayed : Schedule → StoredSchedule

-- A key that names a schedule already: the lookup is made only for a request with a key.
abbrev pub look_up : Schedule → M (Option Schedule)
look_up s = elim s.idempotency_key [
  | none ↦ pure none
  | some key ↦ query (λ d. find_schedule_by_key s.client (some key) d.schedules)
]

unfoldable pub insert_new : Schedule → ℕ → ℕ → Database → M StoredSchedule
insert_new s limit now tx = do
  held ← query (λ d. count_where (is_of_client s.client) d.schedules)
  fail_if (leb limit held) schedule_limit
  statement (insert_schedule s now) >>= λ _. (commit tx >> pure (created s now))

abbrev pub settle_key : Schedule → ℕ → ℕ → Database → Option Schedule → M StoredSchedule
settle_key s limit now tx none = insert_new s limit now tx
settle_key s limit now tx (some existing) =
    rollback tx
    >> (if same_as existing s then pure (replayed existing) else raise idempotency_conflict)

-- `CreateSchedule`
unfoldable pub create_schedule : Schedule → ℕ → M StoredSchedule
create_schedule s limit = do
  now ← time_now
  tx ← begin
  on_error (rollback tx) (do existing ← look_up s; settle_key s limit now tx existing)

abbrev or_not_found : Option Schedule → M Schedule
or_not_found none = raise not_found
or_not_found (some s) = pure s

-- `GetSchedule`
unfoldable pub get_schedule : String → M Schedule
get_schedule id = do found ← query (λ d. find_by (λ s. s.id) id d.schedules); or_not_found found

-- `DeleteSchedule`
unfoldable pub delete_schedule : String → M (Unit {0})
delete_schedule id = statement (λ d.
    if is_some (find_by (λ s. s.id) id d.schedules)
    then ok (tt, record d { schedules = select_where (λ s. not (str_eq s.id id)) d.schedules })
    else err not_found)

abbrev pub is_run_due : ℕ → Schedule → Bool
is_run_due now s = s.enabled && is_due now s.next_run_at

abbrev run_sooner : Option ℕ → Option ℕ → Bool
run_sooner (some a) (some b) = ltb a b
run_sooner a b = false

unfoldable pub insert_run : Schedule → List Schedule → List Schedule
insert_run s [] = s ∷ []
insert_run s (x ∷ xs) =
    let rest = insert_run s xs in
    if run_sooner x.next_run_at s.next_run_at then x ∷ rest else s ∷ x ∷ xs

unfoldable pub sort_runs : List Schedule → List Schedule
unfolding insert_run
sort_runs [] = []
sort_runs (s ∷ ss) = insert_run s (sort_runs ss)

-- `DueSchedules`: the most overdue first.
unfoldable pub due_schedules : ℕ → ℕ → M (List Schedule)
unfolding sort_runs
due_schedules now limit =
    query (λ d. take limit (sort_runs (select_where (is_run_due (ts now)) d.schedules)))

-- The `SET` of `AdvanceSchedule`; times as stored.
abbrev pub advanced_row : ℕ → String → ℕ → ℕ → Schedule → Schedule
advanced_row due job_id next now s = record s {
  last_run_at = some due;
  last_job_id = some job_id;
  next_run_at = some next;
  updated_at = now;
}

abbrev pub advance_if :
    ℕ → (Schedule → Schedule) → String → Database → Option Schedule → ℕ × Database
advance_if due f id d none = (0, d)
advance_if due f id d (some s) =
    if same_time s.next_run_at (some due)
    then (1, record d { schedules = update_by (λ s. s.id) id f d.schedules })
    else (0, d)

-- `AdvanceSchedule`: false when another scheduler was first.
unfoldable pub advance_schedule : String → ℕ → String → ℕ → M Bool
advance_schedule id due job_id next = do
  now ← time_now
  n ← statement (λ d. ok (
      advance_if (ts due) (advanced_row (ts due) job_id (ts next) (ts now)) id d
        (find_by (λ s. s.id) id d.schedules)))
  pure (n == 1)
