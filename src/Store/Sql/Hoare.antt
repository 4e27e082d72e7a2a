-- ===== src/Store/Sql/Hoare.antt =====
-- Reasoning about the store's methods by postconditions: `Post Q E` holds of an outcome when `Q`
-- holds of the value and the tables that it returned, or `E` of the error and the tables. There is
-- one rule for each way to build a method.
use tenta_cron.Prelude.{
  ℕ, ◌+◌, ◌≡◌, refl, Bool, true, false, Option, none, some, Bool-cases, inl, inr,
}
use tenta_cron.Store.Model.{Database, Error, db_error}
use tenta_cron.Store.Sql.{
  Result, ok, err, Env, World, M, pure, raise, statement, query, execute, on_error, time_now, begin,
  rollback, commit, fail_if, fail_with, when, recover, answer, clean, continue, choose, ◌>>=◌, ◌>>◌,
}

abbrev pub Post :
    {A : Type 0} → (A → Database → Type 0) → (Error → Database → Type 0) → Result A × World → Type 0
Post Q E (ok a, w) = Q a w.db
Post Q E (err x, w) = E x w.db

module _ {A : Type 0} (Q : A → Database → Type 0) (E : Error → Database → Type 0) (e : Env) where
  pub Post-statement :
      (f : Database → Result (A × Database)) (w : World)
      → ((a : A) (d : Database) → f w.db ≡ ok (a, d) → Q a d)
      → ((x : Error) → E x w.db)
      → Post Q E (statement f e w)
  unfolding statement
  Post-statement f w q x = elim (Bool-cases (e.fails w.step)) [
    | inl fault ↦ rw fault (x db_error)
    | inr fine ↦ rw fine (go (f w.db) q)
  ]
    where
      go :
          (r : Result (A × Database))
          → ((a : A) (d : Database) → r ≡ ok (a, d) → Q a d)
          → Post Q E (answer r w)
      go (ok (a, d)) h = h a d refl
      go (err y) h = x y

  pub Post-on_error :
      (cleanup : M (Unit {0})) (m : M A) (w : World)
      → Post Q (λ x d. (w' : World) → E x (cleanup e w').1.db) (m e w)
      → Post Q E (on_error cleanup m e w)
  unfolding on_error
  Post-on_error cleanup m w h = go (m e w) h
    where
      go :
          (r : Result A × World)
          → Post Q (λ x d. (w' : World) → E x (cleanup e w').1.db) r
          → Post Q E (clean cleanup e r)
      go (ok a, w') h = h
      go (err x, w') h = h w'

module _ {A : Type 0} (Q R : A → Database → Type 0) (E : Error → Database → Type 0) where
  pub Post-weaken :
      (r : Result A × World) → Post Q E r → ((a : A) (d : Database) → Q a d → R a d) → Post R E r
  Post-weaken (ok a, w) h k = k a w.db h
  Post-weaken (err x, w) h k = h

-- From a postcondition to one predicate of the tables.
pub Post-tables :
    {A : Type 0} (Q : A → Database → Type 0) (E : Error → Database → Type 0) (P : Database → Type 0)
    (r : Result A × World)
    → Post Q E r
    → ((a : A) (d : Database) → Q a d → P d)
    → ((x : Error) (d : Database) → E x d → P d)
    → P r.1.db
Post-tables Q E P (ok a, w) h k l = k a w.db h
Post-tables Q E P (err x, w) h k l = l x w.db h

module _ {A B : Type 0} (R : A → Database → Type 0) (Q : B → Database → Type 0)
    (E : Error → Database → Type 0) (e : Env) where
  pub Post-bind :
      (m : M A) (f : A → M B) (w : World)
      → Post R E (m e w)
      → ((a : A) (w' : World) → R a w'.db → Post Q E (f a e w'))
      → Post Q E ((m >>= f) e w)
  unfolding ◌>>=◌
  Post-bind m f w h k = go (m e w) h
    where
      go : (r : Result A × World) → Post R E r → Post Q E (continue f e r)
      go (ok a, w') h = k a w' h
      go (err x, w') h = h

module _ (Q : Unit {0} → Database → Type 0) (E : Error → Database → Type 0) (e : Env) where
  pub Post-execute :
      (f : Database → Database) (w : World)
      → Q tt (f w.db)
      → E db_error w.db
      → Post Q E (execute f e w)
  unfolding execute
  Post-execute f w q x = elim (Bool-cases (e.fails w.step)) [
    | inl fault ↦ rw fault x
    | inr fine ↦ rw fine q
  ]

  pub Post-commit :
      (snapshot : Database) (w : World)
      → Q tt w.db
      → E db_error snapshot
      → Post Q E (commit snapshot e w)
  unfolding commit
  Post-commit snapshot w q x = elim (Bool-cases (e.fails w.step)) [
    | inl fault ↦ rw fault x
    | inr fine ↦ rw fine q
  ]

  pub Post-when :
      (b : Bool) (m : M (Unit {0})) (w : World)
      → (b ≡ true → Post Q E (m e w))
      → (b ≡ false → Q tt w.db)
      → Post Q E (when b m e w)
  unfolding when
  Post-when true m w y n = y refl
  Post-when false m w y n = n refl

  pub Post-fail_if :
      (b : Bool) (x : Error) (w : World)
      → (b ≡ false → Q tt w.db)
      → E x w.db
      → Post Q E (fail_if b x e w)
  unfolding fail_if
  Post-fail_if true x w q h = h
  Post-fail_if false x w q h = q refl

  pub Post-fail_with :
      (o : Option Error) (w : World)
      → (o ≡ none → Q tt w.db)
      → ((x : Error) → E x w.db)
      → Post Q E (fail_with o e w)
  unfolding fail_with
  Post-fail_with none w q h = q refl
  Post-fail_with (some x) w q h = h x

module _ {A : Type 0} (Q : A → Database → Type 0) (E : Error → Database → Type 0) (e : Env) where
  -- A transaction that is rolled back on an error leaves the tables that it began with.
  pub Post-rolled_back :
      (d : Database) (m : M A) (w : World)
      → Post Q (λ _ _. Unit {0}) (m e w)
      → ((x : Error) → E x d)
      → Post Q E (on_error (rollback d) m e w)
  unfolding on_error rollback
  Post-rolled_back d m w h x = go (m e w) h
    where
      go : (r : Result A × World) → Post Q (λ _ _. Unit {0}) r → Post Q E (clean (rollback d) e r)
      go (ok a, w') q = q
      go (err y, w') q = x y

  pub Post-query :
      (f : Database → A) (w : World) → Q (f w.db) w.db → E db_error w.db → Post Q E (query f e w)
  unfolding query
  Post-query f w q x = elim (Bool-cases (e.fails w.step)) [
    | inl fault ↦ rw fault x
    | inr fine ↦ rw fine q
  ]

  pub Post-time_now :
      (k : ℕ → M A) (w : World)
      → Post Q E (k (e.clock w.step) e (record w { step = w.step + 1 }))
      → Post Q E ((time_now >>= k) e w)
  unfolding ◌>>=◌
  Post-time_now k w h = h

  pub Post-begin :
      (k : Database → M A) (w : World)
      → ((w' : World) → w'.db ≡ w.db → Post Q E (k w.db e w'))
      → E db_error w.db
      → Post Q E ((begin >>= k) e w)
  unfolding ◌>>=◌
  Post-begin k w h x = elim (Bool-cases (e.fails w.step)) [
    | inl fault ↦ rw fault x
    | inr fine ↦ rw fine (h _ refl)
  ]

  pub Post-rollback :
      (d : Database) (k : M A) (w : World)
      → ((w' : World) → w'.db ≡ d → Post Q E (k e w'))
      → Post Q E ((rollback d >> k) e w)
  unfolding ◌>>=◌
  Post-rollback d k w h = h _ refl

  pub Post-pure : (a : A) (w : World) → Q a w.db → Post Q E (pure a e w)
  unfolding pure
  Post-pure a w h = h

  pub Post-raise : (x : Error) (w : World) → E x w.db → Post Q E (raise x e w)
  unfolding raise
  Post-raise x w h = h

module _ {A B : Type 0} (R : A → Database → Type 0) (F : Error → Database → Type 0)
    (Q : B → Database → Type 0) (E : Error → Database → Type 0) (e : Env) where
  pub Post-recover :
      (m : M A) (g : Error → M B) (f : A → M B) (w : World)
      → Post R F (m e w)
      → ((x : Error) (w' : World) → F x w'.db → Post Q E (g x e w'))
      → ((a : A) (w' : World) → R a w'.db → Post Q E (f a e w'))
      → Post Q E (recover m g f e w)
  unfolding recover
  Post-recover m g f w h kg kf = go (m e w) h
    where
      go : (r : Result A × World) → Post R F r → Post Q E (choose g f e r)
      go (ok a, w') p = kf a w' p
      go (err x, w') p = kg x w' p
