-- ===== src/Callback/Deliverer/Keeps.antt =====
-- A pass of the deliverer keeps the tables valid (internal/callback/deliverer.go).
use tenta_cron.Prelude.{String, Option, none, some, List, [], ◌∷◌}
use tenta_cron.Store.Model.{Job, Delivery}
use tenta_cron.Store.Invariant.Keeps.{Keeps, keeps_rules}
use tenta_cron.Store.Sql.Holds.{Holds-pure, Holds-bind}
use tenta_cron.Store.Invariant.Claim.{get_job-Keeps}
use tenta_cron.Store.Invariant.Deliveries.{record_attempt-Keeps}
use tenta_cron.Store.Deliveries.{due_deliveries}
use tenta_cron.Callback.Deliverer.{
  CallbackConfig, Verdict, delivered, failed, retry, panicked, Answer, settle, refuse, attempt,
  deliver_one, deliver_each, deliver_due,
}

settle-Keeps : (v : Delivery) (a : Answer) (verdict : Verdict) → Keeps (settle v a verdict)
settle-Keeps v a panicked = Holds-pure none
settle-Keeps v a delivered = search (keeps_rules, record_attempt-Keeps)
settle-Keeps v a failed = search (keeps_rules, record_attempt-Keeps)
settle-Keeps v a (retry at) = search (keeps_rules, record_attempt-Keeps)

deliver_one-Keeps :
    (cfg : CallbackConfig) (post : Delivery → Job → Answer) (v : Delivery) (reason : Option String)
    → Keeps (deliver_one cfg post v reason)
unfolding attempt refuse
deliver_one-Keeps cfg post v none = search (keeps_rules, get_job-Keeps, settle-Keeps)
deliver_one-Keeps cfg post v (some reason) = search (keeps_rules, settle-Keeps)

deliver_each-Keeps :
    (cfg : CallbackConfig) (check : String → Option String) (post : Delivery → Job → Answer)
    (vs : List Delivery)
    → Keeps (deliver_each cfg check post vs)
unfolding deliver_each
deliver_each-Keeps cfg check post [] = Holds-pure tt
deliver_each-Keeps cfg check post (v ∷ vs) =
    Holds-bind _ _ (deliver_one-Keeps cfg post v (check v.url))
      (λ _. deliver_each-Keeps cfg check post vs)

pub deliver_due-Keeps :
    (cfg : CallbackConfig) (check : String → Option String) (post : Delivery → Job → Answer)
    → Keeps (deliver_due cfg check post)
unfolding deliver_due due_deliveries
deliver_due-Keeps cfg check post = search (keeps_rules, deliver_each-Keeps)
