-- ===== src/Store/Cache/RoundTrip.antt =====
-- What is put into the series cache is read back until it expires (internal/store/cache.go).

use tenta_cron.Prelude.{
  ℕ, ◌+◌, ◌<◌, String, ◌≡◌, refl, false, Option, none, some, List, arith, str_eq_refl,
}
use tenta_cron.Prelude.Tables.{find_by, find_by-update_by, find_by-append_one}
use tenta_cron.Store.Model.{ts, Series}
use tenta_cron.Store.Sql.{ok, Env, World, ◌>>=◌}
use tenta_cron.Store.Cache.{get_series, put_series, fresh_response, upsert_series, refreshed}

-- The row of the key after it was put, whether it was there or not.
fresh_response-upsert_series :
    (h resolvent_type response : String) (at now expires : ℕ) (o : Option Series)
    (rows : List Series)
    → find_by (λ s. s.param_hash) h rows ≡ o
    → at < expires
    → fresh_response at
        (find_by (λ s. s.param_hash) h (upsert_series o h resolvent_type response now expires rows))
      ≡ some response
fresh_response-upsert_series h resolvent_type response at now expires none rows f t =
    rw
      (
        find_by-append_one (λ s. s.param_hash) h rows
            (record {
              param_hash = h;
              resolvent_type = resolvent_type;
              response = response;
              created_at = now;
              expires_at = expires;
            }),
        f,
        str_eq_refl h,
      )
      (ground arith)
fresh_response-upsert_series h resolvent_type response at now expires (some s) rows f t =
    rw
      (
        find_by-update_by (λ s. s.param_hash) h h (refreshed response now expires) rows (λ s. refl),
        f,
        str_eq_refl h,
      )
      (ground arith)

-- Where no statement fails, a response that was put is the one that is read, as long as the reader's
-- clock shows a stored time before the expiry.
pub get_series-put_series :
    (h resolvent_type response : String) (ttl : ℕ) (e e' : Env) (w : World)
    → ((n : ℕ) → e.fails n ≡ false)
    → ((n : ℕ) → e'.fails n ≡ false)
    → ((n : ℕ) → ts (e'.clock n) < ts (e.clock w.step + ttl))
    → (get_series h e' (put_series h resolvent_type response ttl e w).1).0 ≡ ok (some response)
unfolding get_series put_series ◌>>=◌
get_series-put_series h resolvent_type response ttl e e' w calm calm' early =
    rw (calm, calm')
      (rw
        (fresh_response-upsert_series h resolvent_type response (ts (e'.clock (w.step + 1 + 1)))
          (ts (e.clock w.step)) (ts (e.clock w.step + ttl))
          (find_by (λ s. s.param_hash) h w.db.series) w.db.series refl (early _))
        refl)
