-- ===== src/Store/Sql/Holds.antt =====
-- The methods of internal/store that leave a property of the tables alone, whether they return or
-- fail, with a rule for each way to build a method.
use tenta_cron.Prelude.{ℕ, Bool, true, false, if◌then◌else◌, Bool-cases, inl, inr}
use tenta_cron.Store.Model.{Database, Error}
use tenta_cron.Store.Sql.{
  Result, ok, err, Env, World, M, pure, raise, query, recover, time_now, choose, continue, ◌>>=◌,
}

pub record Holds {A : Type 0} (P : Database → Type 0) (m : M A) : Type 0 where
  pub keeps : (e : Env) (w : World) → P w.db → P (m e w).1.db

module _ {P : Database → Type 0} {A : Type 0} where
  pub Holds-pure : (a : A) → Holds P (pure a)
  unfolding pure
  Holds-pure a = record { keeps = λ e w v. v }

  pub Holds-raise : (x : Error) → Holds P (raise {A = A} x)
  unfolding raise
  Holds-raise x = record { keeps = λ e w v. v }

  pub Holds-query : (f : Database → A) → Holds P (query f)
  unfolding query
  Holds-query f = record {
    keeps = λ e w v. elim (Bool-cases (e.fails w.step)) [
      | inl fault ↦ rw fault v
      | inr fine ↦ rw fine v
    ];
  }

  pub Holds-time_now : (k : ℕ → M A) → ((now : ℕ) → Holds P (k now)) → Holds P (time_now >>= k)
  unfolding ◌>>=◌
  Holds-time_now k h = record { keeps = λ e w v. (h (e.clock w.step)).keeps e _ v }

  pub Holds-if : (b : Bool) (m n : M A) → Holds P m → Holds P n → Holds P (if b then m else n)
  Holds-if true m n km kn = km
  Holds-if false m n km kn = kn

module _ {P : Database → Type 0} {A B : Type 0} where
  chosen :
      (g : Error → M B) (f : A → M B)
      → ((x : Error) → Holds P (g x))
      → ((a : A) → Holds P (f a))
      → (e : Env) (r : Result A × World) → P r.1.db
      → P (choose g f e r).1.db
  chosen g f kg kf e (ok a, w) v = (kf a).keeps e w v
  chosen g f kg kf e (err x, w) v = (kg x).keeps e w v

  pub Holds-recover :
      (m : M A) (g : Error → M B) (f : A → M B)
      → Holds P m
      → ((x : Error) → Holds P (g x))
      → ((a : A) → Holds P (f a))
      → Holds P (recover m g f)
  unfolding recover
  Holds-recover m g f km kg kf = record {
    keeps = λ e w v. chosen g f kg kf e (m e w) (km.keeps e w v);
  }

  pub Holds-bind :
      (m : M A) (f : A → M B) → Holds P m → ((a : A) → Holds P (f a)) → Holds P (m >>= f)
  unfolding ◌>>=◌
  Holds-bind m f km kf = record { keeps = λ e w v. go e (m e w) (km.keeps e w v) }
    where
      go : (e : Env) (r : Result A × World) → P r.1.db → P (continue f e r).1.db
      go e (ok a, w) v = (kf a).keeps e w v
      go e (err x, w) v = v

pub ruleset holds_rules =
    (Holds-pure, Holds-raise, Holds-query, Holds-time_now, Holds-if, Holds-recover, Holds-bind)
