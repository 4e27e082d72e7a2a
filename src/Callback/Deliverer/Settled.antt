-- ===== src/Callback/Deliverer/Settled.antt =====
-- What the row of a delivery says once an attempt on it was counted (internal/callback/deliverer.go,
-- `attempt` and `refuse`).

use tenta_cron.Prelude.{
  ℕ, ◌+◌, ◌==◌, String, ◌≡◌, refl, ap, Bool, true, false, Option, none, some, is_some, str_eq_refl,
  arith, Bool-cases, inl, inr, some_injective,
}
use tenta_cron.Prelude.Tables.{find_by, update_by, find_by-update_by}
use tenta_cron.Store.Model.{Job, Delivery, Database}
use tenta_cron.Store.Sql.{Result, ok, err, Env, World, pure, recover, choose, time_now, ◌>>=◌}
use tenta_cron.Store.Sql.Hoare.{Post, Post-statement, Post-time_now}
use tenta_cron.Store.Claim.Outcome.{ok_injective}
use tenta_cron.Store.Create.{get_job}
use tenta_cron.Store.Deliveries.{time_if, stored, attempt_row, update_attempt, record_attempt}
use tenta_cron.Callback.Deliverer.{
  CallbackConfig, Verdict, delivered, failed, retry, panicked, Answer, classify, is_delivered,
  next_of, status_of, settle, refuse, attempt, deliver_one,
}
use tenta_cron.Callback.Deliverer.Verdicts.{classify-delivered}

-- The row of the delivery after an attempt that came to a verdict.
pub record RowAfter (v : Delivery) (out : Verdict) (d : Database) : Type 0 where
  pub row : Delivery
  pub found : find_by (λ r. r.job_id) v.job_id d.deliveries ≡ some row
  pub counted : row.attempts ≡ v.attempts + 1
  pub marked : is_some row.delivered_at ≡ is_delivered out
  pub planned : row.next_attempt_at ≡ stored (next_of out)

time_if-is_some : (b : Bool) (now : ℕ) → is_some (time_if b now) ≡ b
time_if-is_some true now = refl
time_if-is_some false now = refl

update_attempt-RowAfter :
    (v : Delivery) (out : Verdict) (status : Option ℕ) (last_error : Option String) (now : ℕ)
    (d : Database) (o : Option Delivery) (u : Unit {0}) (d' : Database)
    → find_by (λ r. r.job_id) v.job_id d.deliveries ≡ o
    → update_attempt v.attempts
        (attempt_row status last_error (is_delivered out) (next_of out) now)
        v.job_id
        d
        o
      ≡ ok (u, d')
    → RowAfter v out d'
update_attempt-RowAfter v out status last_error now d none u d' f h = let no : ⊥ = cc in elim no [ ]
update_attempt-RowAfter v out status last_error now d (some r) u d' f h =
    elim (Bool-cases (r.attempts == v.attempts)) [
      | inl t ↦
          let set : Delivery → Delivery =
            attempt_row status last_error (is_delivered out) (next_of out) now in
          let left : record d { deliveries = update_by (λ r. r.job_id) v.job_id set d.deliveries }
              ≡ d' =
            ap (λ (p : Unit {0} × Database). p.1) (ok_injective (rw t at h)) in
          record {
            row = set r;
            found = rw (← left) (
                rw
                  (
                    find_by-update_by (λ r. r.job_id) v.job_id v.job_id set d.deliveries
                        (λ r. refl),
                    f,
                    str_eq_refl v.job_id,
                  )
                  refl);
            counted = ground arith;
            marked = time_if-is_some (is_delivered out) now;
            planned = refl;
          }
      | inr t ↦ let no : ⊥ = cc (rw t at h) in elim no [ ]
    ]

record_attempt-RowAfter :
    (v : Delivery) (out : Verdict) (status : Option ℕ) (last_error : Option String) (e : Env)
    (w : World)
    → Post
        (λ _ d. RowAfter v out d)
        (λ x d. Unit {0})
        (record_attempt v.job_id v.attempts status last_error (is_delivered out) (next_of out) e w)
unfolding record_attempt
record_attempt-RowAfter v out status last_error e w =
    Post-time_now (λ _ d. RowAfter v out d) (λ x d. Unit {0}) e _ w
      (Post-statement (λ _ d. RowAfter v out d) (λ x d. Unit {0}) e _
        (record w { step = w.step + 1 })
        (λ u d' h.
          update_attempt-RowAfter v out status last_error (e.clock w.step) w.db
            (find_by (λ r. r.job_id) v.job_id w.db.deliveries) u d' refl h)
        (λ x. tt))

-- An outcome that counted a verdict left its row.
abbrev CountedRow : Delivery → (Verdict → Type 0) → Result (Option Verdict) × World → Type 0
CountedRow v P (ok (some out), w) = P out × RowAfter v out w.db
CountedRow v P (ok none, w) = Unit
CountedRow v P (err x, w) = Unit

settled :
    (v : Delivery) (P : Verdict → Type 0) (out : Verdict) (e : Env) (r : Result (Unit {0}) × World)
    → P out
    → Post (λ _ d. RowAfter v out d) (λ x d. Unit {0}) r
    → CountedRow v P (choose (λ x. pure none) (λ _. pure (some out)) e r)
unfolding pure
settled v P out e (ok u, w) q p = (q, p)
settled v P out e (err x, w) q p = tt

settle-CountedRow :
    (v : Delivery) (a : Answer) (P : Verdict → Type 0) (out : Verdict) (e : Env) (w : World)
    → P out
    → CountedRow v P (settle v a out e w)
unfolding recover pure
settle-CountedRow v a P panicked e w q = tt
settle-CountedRow v a P delivered e w q =
    settled v P delivered e _ q
      (record_attempt-RowAfter v delivered (status_of a.status) a.error e w)
settle-CountedRow v a P failed e w q =
    settled v P failed e _ q (record_attempt-RowAfter v failed (status_of a.status) a.error e w)
settle-CountedRow v a P (retry at) e w q =
    settled v P (retry at) e _ q
      (record_attempt-RowAfter v (retry at) (status_of a.status) a.error e w)

-- A verdict of delivery rests on an answer without an error, to a URL that was not refused.
abbrev pub IsHonest : (Delivery → Job → Answer) → Delivery → Option String → Verdict → Type 0
IsHonest post v reason out =
    is_delivered out ≡ true → (reason ≡ none) × ((j : Job) × ((post v j).error ≡ none))

delivered_only : (out : Verdict) → is_delivered out ≡ true → out ≡ delivered
delivered_only delivered h = refl
delivered_only failed h = let no : ⊥ = cc in elim no [ ]
delivered_only (retry at) h = let no : ⊥ = cc in elim no [ ]
delivered_only panicked h = let no : ⊥ = cc in elim no [ ]

classify-error :
    (cfg : CallbackConfig) (now attempts : ℕ) (a : Answer)
    → is_delivered (classify cfg now attempts a) ≡ true
    → a.error ≡ none
classify-error cfg now attempts a h =
    (classify-delivered cfg now attempts a).0 (delivered_only (classify cfg now attempts a) h)

refuse-CountedRow :
    (cfg : CallbackConfig) (post : Delivery → Job → Answer) (v : Delivery) (reason : String)
    (e : Env) (w : World)
    → CountedRow v (IsHonest post v (some reason)) (refuse cfg v reason e w)
unfolding refuse time_now ◌>>=◌
refuse-CountedRow cfg post v reason e w =
    let a : Answer = record { status = 0; error = some reason } in
    let now : ℕ = e.clock w.step in
    settle-CountedRow v a (IsHonest post v (some reason)) (classify cfg now (v.attempts + 1) a) e _
      λ h. let no : ⊥ = cc (classify-error cfg now (v.attempts + 1) a h) in elim no [ ]

attempt-CountedRow :
    (cfg : CallbackConfig) (post : Delivery → Job → Answer) (v : Delivery) (e : Env) (w : World)
    → CountedRow v (IsHonest post v none) (attempt cfg post v e w)
unfolding attempt recover time_now ◌>>=◌ pure
attempt-CountedRow cfg post v e w = step (get_job v.job_id e w)
  where
    step :
        (r : Result Job × World)
        → CountedRow v (IsHonest post v none) (
            choose
              (λ x. pure none)
              (λ j. time_now >>= λ now.
                settle v (post v j) (classify cfg now (v.attempts + 1) (post v j)))
              e
              r)
    step (ok j, u) =
        let now : ℕ = e.clock u.step in
        settle-CountedRow v (post v j) (IsHonest post v none)
          (classify cfg now (v.attempts + 1) (post v j)) e _
          λ h. (refl, (j, classify-error cfg now (v.attempts + 1) (post v j) h))
    step (err x, u) = tt

counted_row :
    (v : Delivery) (P : Verdict → Type 0) (out : Verdict) (r : Result (Option Verdict) × World)
    → CountedRow v P r
    → r.0 ≡ ok (some out)
    → P out × RowAfter v out r.1.db
counted_row v P out (ok (some x), w) c h =
    let same : x ≡ out = some_injective (ok_injective h) in rw same at c
counted_row v P out (ok none, w) c h = let no : ⊥ = cc in elim no [ ]
counted_row v P out (err x, w) c h = let no : ⊥ = cc in elim no [ ]

-- Where one delivery of a pass counts a verdict, its row counts one attempt more, is marked as
-- delivered exactly when that is the verdict, and is due again exactly when and where a retry says;
-- and the verdict is a delivery only if the allow-list did not refuse the URL and an answer of the
-- receiver carried no error.
pub deliver_one-RowAfter :
    (cfg : CallbackConfig) (post : Delivery → Job → Answer) (v : Delivery) (reason : Option String)
    (out : Verdict) (e : Env) (w : World)
    → (deliver_one cfg post v reason e w).0 ≡ ok (some out)
    → RowAfter v out (deliver_one cfg post v reason e w).1.db
      × (is_delivered out ≡ true → (reason ≡ none) × ((j : Job) × ((post v j).error ≡ none)))
deliver_one-RowAfter cfg post v none out e w h =
    let (honest, row) =
      counted_row v (IsHonest post v none) out (attempt cfg post v e w)
        (attempt-CountedRow cfg post v e w) h in
    (row, honest)
deliver_one-RowAfter cfg post v (some reason) out e w h =
    let (honest, row) =
      counted_row v (IsHonest post v (some reason)) out (refuse cfg v reason e w)
        (refuse-CountedRow cfg post v reason e w) h in
    (row, honest)
