-- ===== src/Callback/Deliverer/Verdicts.antt =====
-- What an attempt's result comes to (internal/callback/deliverer.go, `classify`).
use tenta_cron.Prelude.{ℕ, suc, ◌+◌, ◌≤◌, ◌<◌, ◌≡◌, true, false, none, arith, is_some, ◌↔◌}
use tenta_cron.Callback.Deliverer.{CallbackConfig, delivered, retry, Answer, is_final, classify}
use tenta_cron.Worker.Backoff.{backoff_bounds}

-- A callback is delivered exactly when the answer carries no error.
pub classify-delivered :
    (cfg : CallbackConfig) (now attempts : ℕ) (a : Answer)
    → (classify cfg now attempts a ≡ delivered) ↔ (a.error ≡ none)
unfolding classify
classify-delivered cfg now attempts a = (λ h. ground arith, λ h. ground arith)

-- Under a positive cap, an attempt that is to be retried failed with no final answer and within the
-- budget, and its time is the jittered backoff from now, where the backoff is positive and within
-- the cap.
pub classify-retry :
    (cfg : CallbackConfig) (now n at : ℕ) (a : Answer)
    → 0 < cfg.backoff_max
    → classify cfg now (suc n) a ≡ retry at
    → (is_some a.error ≡ true)
      × (is_final a.status ≡ false)
      × (suc n < cfg.max_attempts)
      × ((b : ℕ) × (at ≡ now + cfg.jitter b) × (0 < b) × (b ≤ cfg.backoff_max))
unfolding classify
classify-retry cfg now n at a pos h =
    let (b, eq, low, high) = backoff_bounds cfg.backoff_base cfg.backoff_max n pos in
    (ground arith, ground arith, ground arith, (b, ground arith, low, high))
