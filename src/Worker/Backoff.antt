-- ===== src/Worker/Backoff.antt =====
-- The backoff of internal/worker/process.go (`retryOrFail`) and internal/callback/deliverer.go
-- (`backoff`): the base doubled for each attempt in an int64 that wraps, and capped. A shift by a
-- negative count panics: `none`. The callers multiply it by
-- a jitter of 0.8 to 1.2 afterwards, so a delay may exceed the cap by a fifth.
use native.Mathlib.Nat.{mod-eq_of_lt}
use tenta_cron.Prelude.{
  ℕ, zero, suc, ◌*◌, ◌%◌, ◌^◌, ◌≤◌, ◌<◌, ◌≡◌, refl, ap, Bool, ◌||◌, Option, none, some, arith,
  if◌then◌else◌, ltb, leb, ◌==◌, min,
}

-- `time.Duration(base) << n` as the bit pattern of the int64.
unfoldable pub shl64 : ℕ → ℕ → ℕ
shl64 base n = (base * 2 ^ n) % 2 ^ 64

-- `b <= 0` on that pattern: zero, or the sign bit.
abbrev pub is_not_positive : ℕ → Bool
is_not_positive b = b == 0 || leb (2 ^ 63) b

unfoldable pub capped : ℕ → ℕ → ℕ
capped max_backoff b = if (is_not_positive b || ltb max_backoff b) then max_backoff else b

unfoldable pub backoff : ℕ → ℕ → ℕ → Option ℕ
unfolding capped shl64
backoff base max_backoff zero = none
backoff base max_backoff (suc n) = some (capped max_backoff (shl64 base n))

capped_bounds : (m b : ℕ) → 0 < m → (0 < capped m b) × (capped m b ≤ m)
unfolding capped
capped_bounds m b h = ground arith

small : (b : ℕ) → b < 2 ^ 63 → b < 2 ^ 64
small b room = omega arith

-- Under a positive cap, from the first attempt on and however far the shift has overflowed, the
-- backoff, before its jitter, is positive and within the cap.
pub backoff_bounds :
    (base max_backoff n : ℕ)
    → 0 < max_backoff
    → (b : ℕ) × (backoff base max_backoff (suc n) ≡ some b) × (0 < b) × (b ≤ max_backoff)
unfolding backoff
backoff_bounds base m n h = (
  capped m (shl64 base n),
  refl,
  (capped_bounds m (shl64 base n) h).0,
  (capped_bounds m (shl64 base n) h).1,
)

capped-min : (m b : ℕ) → 0 < b → 0 < m → b < 2 ^ 63 → capped m b ≡ min b m
unfolding capped
capped-min m b pos cap room = grind arith

-- As long as an int64 holds the doubled base, the backoff, before its jitter, is the doubled base or
-- the cap, whichever is smaller.
pub backoff-min :
    (base max_backoff n : ℕ)
    → 0 < base * 2 ^ n
    → base * 2 ^ n < 2 ^ 63
    → 0 < max_backoff
    → backoff base max_backoff (suc n) ≡ some (min (base * 2 ^ n) max_backoff)
unfolding backoff
backoff-min base m n pos room cap =
    rw (mod-eq_of_lt (small (base * 2 ^ n) room))
      (ap some (capped-min m (base * 2 ^ n) pos cap room))
