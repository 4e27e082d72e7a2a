-- ===== src/Store/Cache.antt =====
-- internal/store/cache.go: the series cache.
pub mod RoundTrip
use mathlib.Core.Option
use tenta_cron.Prelude.{
  ℕ, ◌+◌, String, Bool, true, false, not, Option, none, some, List, [], ◌∷◌, ◌++◌, if◌then◌else◌,
  ltb, leb, is_some, select_where, count_where,
}
use tenta_cron.Prelude.Tables.{find_by, update_by}
use tenta_cron.Store.Model.{ts, Series, Database}
use tenta_cron.Store.Sql.{Result, ok, M, pure, statement, query, execute, time_now, ◌>>=◌}

abbrev pub fresh_response : ℕ → Option Series → Option String
fresh_response now none = none
fresh_response now (some s) = if ltb now s.expires_at then some s.response else none

-- `GetSeries`
unfoldable pub get_series : String → M (Option String)
get_series param_hash = do
  now ← time_now
  query (λ d. fresh_response (ts now) (find_by (λ s. s.param_hash) param_hash d.series))

abbrev pub refreshed : String → ℕ → ℕ → Series → Series
refreshed response now expires s = record s {
  response = response;
  created_at = now;
  expires_at = expires;
}

abbrev pub upsert_series :
    Option Series → String → String → String → ℕ → ℕ → List Series → List Series
upsert_series none param_hash resolvent_type response now expires rows =
    rows
    ++ record {
      param_hash = param_hash;
      resolvent_type = resolvent_type;
      response = response;
      created_at = now;
      expires_at = expires;
    }
      ∷ []
upsert_series (some _) param_hash resolvent_type response now expires rows =
    update_by (λ s. s.param_hash) param_hash (refreshed response now expires) rows

abbrev pub with_series : String → String → String → ℕ → ℕ → Database → Database
with_series param_hash resolvent_type response now expires d = record d {
  series =
      upsert_series (find_by (λ s. s.param_hash) param_hash d.series) param_hash resolvent_type
        response now expires d.series;
}

-- `PutSeries`
unfoldable pub put_series : String → String → String → ℕ → M (Unit {0})
put_series param_hash resolvent_type response ttl = do
  now ← time_now
  execute (with_series param_hash resolvent_type response (ts now) (ts (now + ttl)))

-- `expires_at <= ?`
abbrev pub is_stale : ℕ → Series → Bool
is_stale now s = leb s.expires_at now

-- `PurgeExpiredSeries`
unfoldable pub purge_expired_series : M ℕ
purge_expired_series = do
  now ← time_now
  statement (λ d. ok (
    count_where (is_stale (ts now)) d.series,
    record d { series = select_where (λ s. not (is_stale (ts now) s)) d.series },
  ))
