-- ===== src/Store/Claim.antt =====
-- internal/store/jobs.go, handing out work: `ClaimPolicy`, `ClaimNext`, `inFlightByClient`,
-- `claimCandidates`, `claimOne`, `claimReceived` and `claimPollTick`. A candidate is the row as the
-- query read it; the claim itself compares with the row as it is then.
pub mod Outcome
pub mod Ceiling
pub mod Ticks
use mathlib.Core.Option
use tenta_cron.Prelude.{
  ℕ, zero, suc, ◌+◌, String, ◌==◌, Bool, true, false, ◌&&◌, ◌||◌, not, Option, none, some, List, [],
  ◌∷◌, ◌++◌, map, ℤ, int_ltb, if◌then◌else◌, is_some, str_eq, ltb, leb, find_where, count_where,
  select_where, take, length,
}
use tenta_cron.Prelude.Tables.{find_by, update_by}
use tenta_cron.Store.Model.{
  State, received, resolving, awaiting_target, failed, same_state, is_held, Error, terminal_state,
  ts, Detail, failure, interrupted, Job, Claim, Database,
}
use tenta_cron.Store.Sql.{
  Result, ok, err, M, pure, raise, statement, query, execute, on_error, time_now, begin, rollback,
  commit, recover, ◌>>=◌, ◌>>◌,
}
use tenta_cron.Store.Transition.{append_event, transition, fail_row, transit}
use tenta_cron.Store.Create.{get_job}

-- A nil function is `none`: a minute of lease, and no ceiling.
pub record ClaimPolicy : Type 0 where
  pub poll_lease : Option (String → ℕ)
  pub max_concurrent : Option (String → ℕ)

abbrev pub minute : ℕ
minute = 60000000000

abbrev pub lease_of : Option (String → ℕ) → String → ℕ
lease_of none target = minute
lease_of (some lease) target = lease target

abbrev pub ceiling_of : Option (String → ℕ) → String → ℕ
ceiling_of none client = 0
ceiling_of (some ceiling) client = ceiling client

-- `next_attempt_at IS NOT NULL AND next_attempt_at <= ?`
abbrev pub is_due : ℕ → Option ℕ → Bool
is_due now none = false
is_due now (some at) = leb at now

abbrev pub is_ready : ℕ → Option ℕ → Bool
is_ready now none = true
is_ready now (some at) = leb at now

abbrev pub is_listed : String → List String → Bool
is_listed c [] = false
is_listed c (x ∷ xs) = str_eq x c || is_listed c xs

-- The `WHERE` of the candidate query; `now` as stored.
abbrev pub is_eligible : ℕ → List String → Job → Bool
is_eligible now excluded j =
    ((same_state j.state received && is_ready now j.next_attempt_at)
      || (same_state j.state awaiting_target && is_due now j.next_attempt_at))
    && not (is_listed j.client excluded)

-- Lexicographic order: by `less`, then by the rest where neither is less.
abbrev pub then_by : Bool → Bool → Bool → Bool
then_by less more rest = less || (not more && rest)

-- `ORDER BY j.priority DESC, j.created_at, j.rowid`
abbrev pub is_before : Job → Job → Bool
is_before a b =
    then_by (int_ltb b.priority a.priority) (int_ltb a.priority b.priority)
      (then_by (ltb a.created_at b.created_at) (ltb b.created_at a.created_at) (ltb a.seq b.seq))

-- `ROW_NUMBER() OVER (PARTITION BY j.client ...)`
unfoldable pub turn : List Job → Job → ℕ
turn js j = suc (count_where (λ x. str_eq x.client j.client && is_before x j) js)

abbrev last_claim : Option Claim → ℕ
last_claim none = 0
last_claim (some c) = suc c.last_claimed_at

-- `COALESCE(cc.last_claimed_at, '')`: a client that was never served comes first.
unfoldable pub last_served : List Claim → String → ℕ
last_served cs client = last_claim (find_by (λ c. c.client) client cs)

-- `ORDER BY priority DESC, turn, last_served, created_at, seq`
unfoldable pub is_sooner : List Claim → List Job → Job → Job → Bool
unfolding turn last_served
is_sooner cs js a b = then_by (int_ltb b.priority a.priority) (int_ltb a.priority b.priority) (
    then_by (ltb (turn js a) (turn js b)) (ltb (turn js b) (turn js a)) (
      then_by (ltb (last_served cs a.client) (last_served cs b.client))
        (ltb (last_served cs b.client) (last_served cs a.client))
        (then_by (ltb a.created_at b.created_at) (ltb b.created_at a.created_at)
          (ltb a.seq b.seq))))

unfoldable pub insert_by : (Job → Job → Bool) → Job → List Job → List Job
insert_by sooner j [] = j ∷ []
insert_by sooner j (x ∷ xs) =
    let rest = insert_by sooner j xs in if sooner x j then x ∷ rest else j ∷ x ∷ xs

unfoldable pub sort_by : (Job → Job → Bool) → List Job → List Job
unfolding insert_by
sort_by sooner [] = []
sort_by sooner (j ∷ js) = insert_by sooner j (sort_by sooner js)

abbrev pub claim_batch : ℕ
claim_batch = 8

abbrev pub claim_rounds : ℕ
claim_rounds = 8

unfoldable pub candidates : ℕ → List String → Database → List Job
unfolding sort_by is_sooner
candidates now excluded d =
    let js = select_where (is_eligible now excluded) d.jobs in
    take claim_batch (sort_by (is_sooner d.claims js) js)

-- `claimCandidates`
unfoldable pub claim_candidates : ℕ → List String → M (List Job)
claim_candidates now excluded = query (candidates now excluded)

-- A job that a worker holds for the client.
abbrev pub is_held_by : String → Job → Bool
is_held_by client j = str_eq j.client client && is_held j.state

-- `inFlightByClient`: the count of each client.
unfoldable pub in_flight_by_client : M (String → ℕ)
in_flight_by_client = query (λ d client. count_where (is_held_by client) d.jobs)

-- The `SET` of `claimReceived`; state and `updated_at` are `transit`'s.
abbrev pub claim_row : Job → Job
claim_row j = record j { attempts = j.attempts + 1; next_attempt_at = none }

abbrev pub below : ℕ → ℕ → Bool
below ceiling n = not (ltb 0 ceiling) || ltb n ceiling

abbrev pub is_free : ℕ → Job → Bool
is_free now j = same_state j.state received && is_ready (ts now) j.next_attempt_at

-- The `WHERE` of `claimReceived` beside the id.
abbrev pub is_claimable : String → ℕ → ℕ → List Job → Job → Bool
is_claimable client ceiling now js j =
    is_free now j && below ceiling (count_where (is_held_by client) js)

-- `UPDATE ... WHERE id = ? AND ...` with its count of rows; `id` is the primary key.
abbrev pub update_if : (Job → Bool) → (Job → Job) → String → Database → Option Job → ℕ × Database
update_if test f id d none = (0, d)
update_if test f id d (some j) =
    if test j then (1, record d { jobs = update_by (λ j. j.id) id f d.jobs }) else (0, d)

abbrev pub update_one : (Job → Bool) → (Job → Job) → String → Database → ℕ × Database
update_one test f id d = update_if test f id d (find_by (λ j. j.id) id d.jobs)

abbrev pub upsert_claim : Option Claim → String → ℕ → List Claim → List Claim
upsert_claim none client now cs = cs ++ record { client = client; last_claimed_at = now } ∷ []
upsert_claim (some _) client now cs =
    update_by (λ c. c.client) client (λ c. record c { last_claimed_at = now }) cs

-- `INSERT INTO client_claims ... ON CONFLICT(client) DO UPDATE`
abbrev pub served : String → ℕ → Database → Database
served client now d = record d {
  claims = upsert_claim (find_by (λ c. c.client) client d.claims) client (ts now) d.claims;
}

-- What follows the `UPDATE` when it hit its row.
unfoldable pub record_claim : String → String → ℕ → Database → M Bool
record_claim id client now tx = do
  on_error (rollback tx) (execute (served client now))
  on_error (rollback tx)
      (append_event id (some received) resolving (Detail.text "claimed by worker") now)
  commit tx
  pure true

-- `claimReceived`
unfoldable pub claim_received : String → String → ℕ → ℕ → M Bool
claim_received id client ceiling now = do
  tx ← begin
  n ← on_error (rollback tx) (
      statement (λ d. ok (
        update_one (is_claimable client ceiling now d.jobs) (transit resolving now claim_row) id
          d)))
  if n == 1 then record_claim id client now tx else (rollback tx >> pure false)

-- `next_attempt_at = ?`
abbrev pub same_time : Option ℕ → Option ℕ → Bool
same_time (some a) (some b) = a == b
same_time _ _ = false

abbrev pub lease_row : ℕ → ℕ → Job → Job
lease_row lease now j = record j { next_attempt_at = some (ts lease); updated_at = ts now }

-- `claimPollTick`
unfoldable pub claim_poll_tick : String → Option ℕ → ℕ → ℕ → M Bool
claim_poll_tick id prev lease now = do
  n ← statement (λ d. ok (
      update_one (λ j. same_state j.state awaiting_target && same_time j.next_attempt_at prev)
        (lease_row lease now) id d))
  pure (n == 1)

abbrev pub is_terminal_error : Error → Bool
is_terminal_error terminal_state = true
is_terminal_error _ = false

abbrev pub exhausted_row : ℕ → ℕ → Job → Job
exhausted_row attempts now j = fail_row "max_attempts_exceeded" (interrupted attempts) now j

abbrev pub exhausted : Detail
exhausted =
    failure "max_attempts_exceeded" (Detail.text "attempts exhausted, last attempt interrupted")

-- `claimOne` on each state of the candidate.
unfoldable pub claim_as : State → Job → ℕ → ClaimPolicy → M Bool
claim_as received c now policy =
    if leb c.max_attempts c.attempts
    then recover (transition c.id (some received) failed exhausted (exhausted_row c.attempts now))
        (λ x. if is_terminal_error x then pure false else raise x) (λ _. pure false)
    else claim_received c.id c.client (ceiling_of policy.max_concurrent c.client) now
claim_as awaiting_target c now policy =
    claim_poll_tick c.id c.next_attempt_at (now + lease_of policy.poll_lease c.target) now
claim_as _ c now policy = pure false

unfoldable pub claim_one : Job → ℕ → ClaimPolicy → M Bool
unfolding claim_as
claim_one c now policy = claim_as c.state c now policy

-- What a batch came to: a job, or the clients that were skipped at their ceiling.
pub data Batch : Type 0 where
  claimed : Job → Batch
  skipped : List String → Batch

abbrev pub at_ceiling : Option (String → ℕ) → (String → ℕ) → String → Bool
at_ceiling ceiling in_flight client =
    let limit = ceiling_of ceiling client in ltb 0 limit && leb limit (in_flight client)

-- The inner loop of `ClaimNext`.
unfoldable pub claim_from : (String → ℕ) → ℕ → ClaimPolicy → List Job → List String → M Batch
claim_from in_flight now policy [] capped = pure (skipped capped)
claim_from in_flight now policy (c ∷ cs) capped =
    let rest = claim_from in_flight now policy cs in
    if same_state c.state received && at_ceiling policy.max_concurrent in_flight c.client
    then rest (c.client ∷ capped)
    else (do
      got ← claim_one c now policy
      if got then (do j ← get_job c.id; pure (claimed j)) else rest capped)

abbrev pub after_batch :
    Bool → (List String → M (Option Job)) → List String → Batch → M (Option Job)
after_batch short next_round excluded (claimed j) = pure (some j)
after_batch true next_round excluded (skipped capped) = pure none
after_batch false next_round excluded (skipped capped) = next_round (excluded ++ capped)

-- The outer loop, a round of it for each number left.
unfoldable pub claim_round : ℕ → (String → ℕ) → ℕ → ClaimPolicy → List String → M (Option Job)
unfolding claim_from
claim_round zero in_flight now policy excluded = pure none
claim_round (suc n) in_flight now policy excluded = do
  cands ← claim_candidates (ts now) excluded
  batch ← claim_from in_flight now policy cands []
  after_batch (ltb (length cands) claim_batch) (claim_round n in_flight now policy) excluded batch

abbrev pub in_flight_for : Option (String → ℕ) → M (String → ℕ)
in_flight_for none = pure (λ client. 0)
in_flight_for (some _) = in_flight_by_client

-- `ClaimNext`
unfoldable pub claim_next : ClaimPolicy → M (Option Job)
unfolding claim_round
claim_next policy = do
  now ← time_now
  in_flight ← in_flight_for policy.max_concurrent
  claim_round claim_rounds in_flight now policy []
