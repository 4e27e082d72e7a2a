-- ===== src/Store/Sql.antt =====
-- database/sql as the store uses it: a statement may fail, a transaction is begun, rolled back
-- and committed by hand. The environment chooses which statement fails and what the clock shows.
pub mod Hoare
pub mod Holds
use tenta_cron.Prelude.{ℕ, ◌+◌, Bool, true, false, Option, none, some, if◌then◌else◌}
use tenta_cron.Store.Model.{Database, Error, db_error}

pub data Result {ℓ} (A : Type ℓ) : Type ℓ where
  ok : A → Result A
  err : Error → Result A

-- What happens at each access: whether the database fails it, and what `time.Now()` reads, in
-- nanoseconds.
pub record Env : Type 0 where
  pub fails : ℕ → Bool
  pub clock : ℕ → ℕ

-- The database, and how many accesses there were.
pub record World : Type 0 where
  pub db : Database
  pub step : ℕ

abbrev pub M : Type 0 → Type 0
M A = Env → World → Result A × World

module _ {A : Type 0} where
  unfoldable pub pure : A → M A
  pure a e w = (ok a, w)

  unfoldable pub raise : Error → M A
  raise x e w = (err x, w)

  -- The answer of a statement that ran: its value and the tables that it leaves, or a constraint
  -- that it violates.
  abbrev pub answer : Result (A × Database) → World → Result A × World
  answer (ok (a, d)) w = (ok a, record w { db = d; step = w.step + 1 })
  answer (err x) w = (err x, record w { step = w.step + 1 })

  -- One statement, which reads and writes the tables.
  unfoldable pub statement : (Database → Result (A × Database)) → M A
  statement f e w =
      if e.fails w.step then (err db_error, record w { step = w.step + 1 }) else answer (f w.db) w

  unfoldable pub query : (Database → A) → M A
  unfolding statement
  query f = statement (λ d. ok (f d, d))

  abbrev pub clean : M (Unit {0}) → Env → Result A × World → Result A × World
  clean cleanup e (ok a, w) = (ok a, w)
  clean cleanup e (err x, w) = (err x, (cleanup e w).1)

  -- What a `return err` after clean-up does: the clean-up's own error is dropped.
  unfoldable pub on_error : M (Unit {0}) → M A → M A
  on_error cleanup m e w = clean cleanup e (m e w)

unfoldable pub execute : (Database → Database) → M (Unit {0})
unfolding statement
execute f = statement (λ d. ok (tt, f d))

unfoldable pub time_now : M ℕ
time_now e w = (ok (e.clock w.step), record w { step = w.step + 1 })

-- `BeginTx` hands out the tables to come back to.
unfoldable pub begin : M Database
unfolding query
begin = query (λ d. d)

-- `_ = tx.Rollback()`
unfoldable pub rollback : Database → M (Unit {0})
rollback snapshot e w = (ok tt, record w { db = snapshot; step = w.step + 1 })

-- A transaction whose commit failed is discarded.
unfoldable pub commit : Database → M (Unit {0})
commit snapshot e w =
    if e.fails w.step
    then (err db_error, record w { db = snapshot; step = w.step + 1 })
    else (ok tt, record w { step = w.step + 1 })

unfoldable pub fail_if : Bool → Error → M (Unit {0})
unfolding raise pure
fail_if true x = raise x
fail_if false x = pure tt

unfoldable pub fail_with : Option Error → M (Unit {0})
unfolding raise pure
fail_with (some x) = raise x
fail_with none = pure tt

unfoldable pub when : Bool → M (Unit {0}) → M (Unit {0})
unfolding pure
when true m = m
when false m = pure tt

module _ {A B : Type 0} where
  abbrev pub continue : (A → M B) → Env → Result A × World → Result B × World
  continue f e (ok a, w) = f a e w
  continue f e (err x, w) = (err x, w)

  abbrev pub choose : (Error → M B) → (A → M B) → Env → Result A × World → Result B × World
  choose g f e (ok a, w) = f a e w
  choose g f e (err x, w) = g x e w

  -- `if err := m; err != nil { g } ; f`
  unfoldable pub recover : M A → (Error → M B) → (A → M B) → M B
  recover m g f e w = choose g f e (m e w)

  infixl 5 ◌>>=◌
  -- Opening this opens the statements too.
  unfoldable pub ◌>>=◌ : M A → (A → M B) → M B
  unfolding pure raise statement query on_error execute time_now begin rollback commit fail_if
      fail_with when
  ◌>>=◌ m f e w = continue f e (m e w)

module _ {B : Type 0} where
  infixl 5 ◌>>◌
  abbrev pub ◌>>◌ : M (Unit {0}) → M B → M B
  m >> k = m >>= λ _. k
