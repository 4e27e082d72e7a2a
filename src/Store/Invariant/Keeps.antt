-- ===== src/Store/Invariant/Keeps.antt =====
-- The methods of internal/store that leave valid tables valid, whether they return or fail.
use tenta_cron.Store.Sql.{M}
use tenta_cron.Store.Sql.Holds.{
  Holds, Holds-pure, Holds-raise, Holds-query, Holds-time_now, Holds-if, Holds-recover, Holds-bind,
}
use tenta_cron.Store.Invariant.{IsValid}

abbrev pub Keeps : {A : Type 0} → M A → Type 0
Keeps m = Holds IsValid m

pub ruleset keeps_rules =
    (Holds-pure, Holds-raise, Holds-query, Holds-time_now, Holds-if, Holds-recover, Holds-bind)
