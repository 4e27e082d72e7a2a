-- ===== src/Worker/Attempt/Cached.antt =====
-- What a fetch reports as a hit.
use tenta_cron.Prelude.{
  some_injective, ltb, ◌<◌, ◌+◌, ◌≢◌, arith, String, ◌≡◌, refl, true, false, Option, none, some,
  Bool-cases, inl, inr,
}
use tenta_cron.Store.Model.{CacheMode, cache_bypass, cache_refresh, Error, Series, ts}
use tenta_cron.Prelude.Tables.{find_by}
use tenta_cron.Store.Claim.Outcome.{ok_injective}
use tenta_cron.Store.Sql.{
  Result, ok, err, Env, World, M, pure, recover, choose, time_now, query, statement, ◌>>=◌,
}
use tenta_cron.Store.Cache.{fresh_response, get_series, put_series}
use tenta_cron.Worker.Fetch.{Outcome, fetched, failed}
use tenta_cron.Worker.Attempt.{
  reads_cache, writes_cache, Called, returned, not_called, ResolventConfig, store_series,
  fetch_fresh, fetch_unless, fetch_one,
}

-- No hit was reported.
abbrev Fresh : Result Outcome × World → Type 0
Fresh (ok (fetched body true), w) = ⊥
Fresh (ok (fetched body false), w) = Unit
Fresh (ok (failed x), w) = Unit
Fresh (err x, w) = Unit

recover-Fresh :
    {A : Type 0} (m : M A) (g : Error → M Outcome) (f : A → M Outcome)
    → ((x : Error) (e : Env) (w : World) → Fresh (g x e w))
    → ((a : A) (e : Env) (w : World) → Fresh (f a e w))
    → (e : Env) (w : World) → Fresh (recover m g f e w)
unfolding recover
recover-Fresh {A = A} m g f hg hf e w = step (m e w)
  where
    step : (r : Result A × World) → Fresh (choose g f e r)
    step (ok a, v) = hf a e v
    step (err x, v) = hg x e v

pure-Fresh :
    (o : Outcome)
    → elim o as (λ _. Type 0) [ fetched body cached ↦ (cached ≡ false) | failed x ↦ Unit {0} ]
    → (e : Env) (w : World) → Fresh (pure o e w)
unfolding pure
pure-Fresh (fetched body true) h e w = let no : ⊥ = cc in no
pure-Fresh (fetched body false) h e w = tt
pure-Fresh (failed x) h e w = tt

store_series-Fresh :
    (rcfg : ResolventConfig) (mode : CacheMode) (hash : String) (body : Option String) (e : Env)
    (w : World)
    → Fresh (store_series rcfg mode hash body e w)
store_series-Fresh rcfg mode hash none e w = pure-Fresh _ tt e w
store_series-Fresh rcfg mode hash (some body) e w = elim (Bool-cases (writes_cache mode)) [
  | inl q ↦ rw q (
      recover-Fresh (put_series hash rcfg.type_name body rcfg.cache_ttl) _ _
        (λ x e v. pure-Fresh (fetched body false) refl e v)
        (λ a e v. pure-Fresh (fetched body false) refl e v) e w)
  | inr q ↦ rw q (pure-Fresh (fetched body false) refl e w)
]

fetch_fresh-Fresh :
    (rcfg : ResolventConfig) (mode : CacheMode) (hash : String) (called : Called) (e : Env)
    (w : World)
    → Fresh (fetch_fresh rcfg mode hash called e w)
fetch_fresh-Fresh rcfg mode hash (not_called x) e w = pure-Fresh (failed x) tt e w
fetch_fresh-Fresh rcfg mode hash (returned body) e w =
    store_series-Fresh rcfg mode hash (rcfg.adapt body) e w

-- No answer that is fresh is a hit.
Fresh-hit :
    (r : Result Outcome × World) (body : String) → Fresh r → r.0 ≡ ok (fetched body true) → ⊥
Fresh-hit (ok (fetched b true), w) body f h = f
Fresh-hit (ok (fetched b false), w) body f h = cc
Fresh-hit (ok (failed x), w) body f h = cc
Fresh-hit (err x, w) body f h = cc

hit-read :
    (rcfg : ResolventConfig) (mode : CacheMode) (hash body : String) (called : Called) (e : Env)
    (r : Result (Option String) × World)
    → (choose (λ x. fetch_fresh rcfg mode hash called) (fetch_unless rcfg mode hash called) e r).0
      ≡ ok (fetched body true)
    → r.0 ≡ ok (some body)
unfolding pure
hit-read rcfg mode hash body called e (ok none, v) h =
    elim (Fresh-hit _ body (fetch_fresh-Fresh rcfg mode hash called e v) h) [ ]
hit-read rcfg mode hash body called e (ok (some b), v) h = let same : b ≡ body = cc in rw same refl
hit-read rcfg mode hash body called e (err x, v) h =
    elim (Fresh-hit _ body (fetch_fresh-Fresh rcfg mode hash called e v) h) [ ]

-- What the cache holds under the hash at the time that the read shows, and is not past its expiry.
pub record Kept (hash body : String) (e : Env) (w : World) : Type 0 where
  pub series : Series
  pub found : find_by (λ s. s.param_hash) hash w.db.series ≡ some series
  pub same_body : series.response ≡ body
  pub in_time : ts (e.clock w.step) < series.expires_at

fresh_response-Kept :
    (hash body : String) (e : Env) (w : World) (o : Option Series)
    → find_by (λ s. s.param_hash) hash w.db.series ≡ o
    → fresh_response (ts (e.clock w.step)) o ≡ some body
    → Kept hash body e w
fresh_response-Kept hash body e w none f h = let no : ⊥ = cc in elim no [ ]
fresh_response-Kept hash body e w (some s) f h =
    elim (Bool-cases (ltb (ts (e.clock w.step)) s.expires_at)) [
      | inl t ↦ record {
        series = s;
        found = f;
        same_body = some_injective (rw t at h);
        in_time = ground arith;
      }
      | inr t ↦ let no : ⊥ = cc (rw t at h) in elim no [ ]
    ]

get_series-Kept :
    (hash body : String) (e : Env) (w : World)
    → (get_series hash e w).0 ≡ ok (some body)
    → Kept hash body e w
unfolding get_series time_now query statement ◌>>=◌
get_series-Kept hash body e w h = elim (Bool-cases (e.fails (w.step + 1))) [
  | inl f ↦ let no : ⊥ = cc (rw f at h) in elim no [ ]
  | inr f ↦
      fresh_response-Kept hash body e w (find_by (λ s. s.param_hash) hash w.db.series) refl
        (ok_injective (rw f at h))
]

never_bypass : (mode : CacheMode) → reads_cache mode ≡ true → mode ≢ cache_bypass
never_bypass mode h b = cc (rw b at h)

never_refresh : (mode : CacheMode) → reads_cache mode ≡ true → mode ≢ cache_refresh
never_refresh mode h b = cc (rw b at h)

-- A fetch that counts as a cache hit ran neither as a bypass nor as a refresh, and what it returns is
-- the response of the row under the resolvent's hash, which expires after the time of the read.
pub fetch_one-hit :
    (rcfg : ResolventConfig) (mode : CacheMode) (hash body : String) (called : Called) (e : Env)
    (w : World)
    → (fetch_one rcfg mode hash called e w).0 ≡ ok (fetched body true)
    → (mode ≢ cache_bypass) × (mode ≢ cache_refresh) × Kept hash body e w
unfolding fetch_one recover
fetch_one-hit rcfg mode hash body called e w h = elim (Bool-cases (reads_cache mode)) [
  | inl r ↦
      let read = hit-read rcfg mode hash body called e (get_series hash e w) (rw r at h) in
      (never_bypass mode r, never_refresh mode r, get_series-Kept hash body e w read)
  | inr r ↦
      let fresh = rw r at h in
      elim (Fresh-hit _ body (fetch_fresh-Fresh rcfg mode hash called e w) fresh) [ ]
]
