-- ===== src/Store/Recovery.antt =====
-- internal/store/jobs.go, what restarts and sweeps put back: `RecoverInFlight`, `RescueStuck`,
-- `requeueAll`, `ReschedulePoll` and `ResetPollSchedules`. The random spread is a parameter.
use tenta_cron.Prelude.{
  ℕ, ◌+◌, String, ◌==◌, Bool, ◌&&◌, none, List, [], ◌∷◌, map, if◌then◌else◌, ltb, length,
  select_where,
}
use tenta_cron.Store.Model.{
  received, awaiting_target, same_state, is_held, parse_ts, Detail, Job, Database,
}
use tenta_cron.Store.Sql.{ok, M, pure, statement, query, time_now, ◌>>=◌, ◌>>◌}
use tenta_cron.Store.Transition.{transition, requeue_row}
use tenta_cron.Store.Claim.{update_one, lease_row}

-- `requeueAll`: the first error ends it.
unfoldable pub requeue_all : Detail → List String → M (Unit {0})
requeue_all detail [] = pure tt
requeue_all detail (id ∷ ids) =
    transition id none received detail (requeue_row none) >> requeue_all detail ids

abbrev pub held_ids : Database → List String
held_ids d = map (λ j. j.id) (select_where (λ j. is_held j.state) d.jobs)

-- `RecoverInFlight`
unfoldable pub recover_in_flight : M ℕ
recover_in_flight = do
  ids ← query held_ids
  requeue_all (Detail.text "recovered after restart") ids
  pure (length ids)

-- A held job that was last touched before its target's cutoff.
abbrev pub is_stuck : (String → ℕ) → Job → Bool
is_stuck cutoff_for j = is_held j.state && ltb (parse_ts j.updated_at) (cutoff_for j.target)

-- `RescueStuck`
unfoldable pub rescue_stuck : (String → ℕ) → M ℕ
rescue_stuck cutoff_for = do
  ids ← query (λ d. map (λ j. j.id) (select_where (is_stuck cutoff_for) d.jobs))
  requeue_all (Detail.text "rescued stuck job") ids
  pure (length ids)

-- `ReschedulePoll`; false when the job is no longer awaiting its target.
unfoldable pub reschedule_poll : String → ℕ → M Bool
reschedule_poll id at = do
  now ← time_now
  n ←
      statement
        (λ d. ok (update_one (λ j. same_state j.state awaiting_target) (lease_row at now) id d))
  pure (n == 1)

-- `mrand.N(spread)` is asked for only where the spread is positive.
abbrev pub spread_at : (String → ℕ → ℕ) → (String → ℕ) → ℕ → Job → ℕ
spread_at random spread_for now j =
    if ltb 0 (spread_for j.target) then now + random j.id (spread_for j.target) else now

unfoldable pub reset_from : (String → ℕ → ℕ) → (String → ℕ) → ℕ → List Job → M (Unit {0})
reset_from random spread_for now [] = pure tt
reset_from random spread_for now (j ∷ js) = do
  moved ← reschedule_poll j.id (spread_at random spread_for now j)
  reset_from random spread_for now js

-- `ResetPollSchedules`
unfoldable pub reset_poll_schedules : (String → ℕ → ℕ) → (String → ℕ) → M ℕ
reset_poll_schedules random spread_for = do
  js ← query (λ d. select_where (λ j. same_state j.state awaiting_target) d.jobs)
  now ← time_now
  reset_from random spread_for now js
  pure (length js)
