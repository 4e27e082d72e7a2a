-- ===== src/Store/Retention.antt =====
-- internal/store/jobs.go, `TerminalBefore`, `DeleteJobs` and `deleteJobChunk`. Deleting a job
-- cascades to its events and its delivery (migrations/0001_init.sql, 0007_callbacks.sql).
use tenta_cron.Prelude.{
  ℕ, zero, suc, String, Bool, false, ◌&&◌, not, Option, none, some, List, [], ◌∷◌, map, ltb, length,
  take, drop, select_where,
}
use tenta_cron.Store.Model.{is_terminal, ts, Job, Database}
use tenta_cron.Store.Sql.{M, pure, query, execute, ◌>>◌}
use tenta_cron.Store.Claim.{is_listed, sort_by}

-- `completed_at < ?`; NULL passes no comparison.
abbrev pub is_older : ℕ → Option ℕ → Bool
is_older cutoff none = false
is_older cutoff (some at) = ltb at cutoff

abbrev pub is_expired : ℕ → Job → Bool
is_expired cutoff j = is_terminal j.state && is_older cutoff j.completed_at

-- `ORDER BY completed_at`; only rows that have the column are sorted.
abbrev pub done_sooner : Option ℕ → Option ℕ → Bool
done_sooner none b = false
done_sooner (some a) none = false
done_sooner (some a) (some b) = ltb a b

unfoldable pub expired : ℕ → ℕ → Database → List Job
unfolding sort_by
expired cutoff limit d = take limit (
    sort_by (λ a b. done_sooner a.completed_at b.completed_at)
      (select_where (is_expired cutoff) d.jobs))

abbrev pub path_list : Option String → List String → List String
path_list none rest = rest
path_list (some p) rest = p ∷ rest

-- The result files of the rows that have one.
unfoldable pub paths_of : List Job → List String
paths_of [] = []
paths_of (j ∷ js) = path_list j.result_path (paths_of js)

-- `TerminalBefore`: ids and paths.
unfoldable pub terminal_before : ℕ → ℕ → M (List String × List String)
unfolding expired paths_of
terminal_before cutoff limit =
    query (λ d. let js = expired (ts cutoff) limit d in (map (λ j. j.id) js, paths_of js))

abbrev pub delete_chunk_size : ℕ
delete_chunk_size = 500

-- `DELETE FROM jobs WHERE id IN (...)`
abbrev pub without : List String → Database → Database
without ids d = record d {
  jobs = select_where (λ j. not (is_listed j.id ids)) d.jobs;
  events = select_where (λ e. not (is_listed e.job_id ids)) d.events;
  deliveries = select_where (λ v. not (is_listed v.job_id ids)) d.deliveries;
}

-- `deleteJobChunk`
unfoldable pub delete_job_chunk : List String → M (Unit {0})
delete_job_chunk ids = execute (without ids)

-- The loop of `DeleteJobs` on the ids left, with a round for each at most.
unfoldable pub delete_from : ℕ → List String → M (Unit {0})
delete_from fuel [] = pure tt
delete_from zero (id ∷ ids) = pure tt
delete_from (suc fuel) (id ∷ ids) =
    delete_job_chunk (take delete_chunk_size (id ∷ ids))
    >> delete_from fuel (drop delete_chunk_size (id ∷ ids))

-- `DeleteJobs`
unfoldable pub delete_jobs : List String → M (Unit {0})
unfolding delete_from
delete_jobs ids = delete_from (length ids) ids
