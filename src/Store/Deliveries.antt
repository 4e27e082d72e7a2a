-- ===== src/Store/Deliveries.antt =====
-- internal/store/deliveries.go: `Delivery.State`, `GetDelivery`, `DueDeliveries`, `RecordAttempt`.
use tenta_cron.Prelude.{
  ℕ, ◌+◌, String, ◌==◌, Bool, true, false, ◌&&◌, not, Option, none, some, List, [], ◌∷◌,
  if◌then◌else◌, is_some, leb, ltb, select_where, take,
}
use tenta_cron.Prelude.Tables.{find_by, update_by}
use tenta_cron.Store.Model.{not_found, ts, Delivery, Database}
use tenta_cron.Store.Sql.{Result, ok, err, M, pure, raise, statement, query, time_now, ◌>>=◌}

pub data DeliveryState : Type 0 where
  pending delivered failed : DeliveryState

-- `Delivery.State`
abbrev pub state_of : Option ℕ → Option ℕ → DeliveryState
state_of (some at) next = delivered
state_of none none = failed
state_of none (some next) = pending

unfoldable pub delivery_state : Delivery → DeliveryState
delivery_state v = state_of v.delivered_at v.next_attempt_at

abbrev or_not_found : Option Delivery → M Delivery
or_not_found none = raise not_found
or_not_found (some v) = pure v

-- `GetDelivery`
unfoldable pub get_delivery : String → M Delivery
get_delivery job_id = do
  found ← query (λ d. find_by (λ v. v.job_id) job_id d.deliveries)
  or_not_found found

abbrev pub is_due : ℕ → Option ℕ → Bool
is_due now none = false
is_due now (some at) = leb at now

-- `ORDER BY next_attempt_at, rowid`: stable in the order of insertion.
abbrev next_sooner : Option ℕ → Option ℕ → Bool
next_sooner (some a) (some b) = ltb a b
next_sooner a b = false

unfoldable pub insert_due : Delivery → List Delivery → List Delivery
insert_due v [] = v ∷ []
insert_due v (x ∷ xs) =
    let rest = insert_due v xs in
    if next_sooner x.next_attempt_at v.next_attempt_at then x ∷ rest else v ∷ x ∷ xs

unfoldable pub sort_due : List Delivery → List Delivery
unfolding insert_due
sort_due [] = []
sort_due (v ∷ vs) = insert_due v (sort_due vs)

-- `DueDeliveries`
unfoldable pub due_deliveries : ℕ → ℕ → M (List Delivery)
unfolding sort_due
due_deliveries now limit = query (λ d. take limit (
    sort_due (
      select_where (λ v. not (is_some v.delivered_at) && is_due (ts now) v.next_attempt_at)
        d.deliveries)))

abbrev pub time_if : Bool → ℕ → Option ℕ
time_if true now = some (ts now)
time_if false now = none

abbrev pub stored : Option ℕ → Option ℕ
stored none = none
stored (some t) = some (ts t)

-- The `SET` of `RecordAttempt`.
abbrev pub attempt_row : Option ℕ → Option String → Bool → Option ℕ → ℕ → Delivery → Delivery
attempt_row status last_error success next now v = record v {
  attempts = v.attempts + 1;
  last_status = status;
  last_error = last_error;
  delivered_at = time_if success now;
  next_attempt_at = stored next;
}

abbrev pub update_attempt :
    ℕ → (Delivery → Delivery) → String → Database → Option Delivery → Result (Unit {0} × Database)
update_attempt prev f job_id d none = err not_found
update_attempt prev f job_id d (some v) =
    if v.attempts == prev
    then ok (tt, record d { deliveries = update_by (λ v. v.job_id) job_id f d.deliveries })
    else err not_found

-- `RecordAttempt`: a compare-and-set on the count of attempts.
unfoldable pub record_attempt :
    String → ℕ → Option ℕ → Option String → Bool → Option ℕ → M (Unit {0})
record_attempt job_id prev status last_error success next = do
  now ← time_now
  statement (λ d.
      update_attempt prev (attempt_row status last_error success next now) job_id d
        (find_by (λ v. v.job_id) job_id d.deliveries))
