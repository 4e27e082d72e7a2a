-- ===== src/Prelude/Tables.antt =====
-- Tables with a text key, as lists of rows in insertion order: the lookup, the update of one row
-- and what they do to one another.
use Prim.Native.String.{String}
use mathlib.Core.Path.{◌≡◌, refl, subst}
use mathlib.Core.Logic.{inl, inr}
use mathlib.Core.Bool.{Bool, false}
use mathlib.Core.Option
use mathlib.Core.Option.{Option, none, some}
use mathlib.Core.List.{List, [], ◌∷◌, ◌++◌}
use native.Mathlib.Omega.{arith}
use text.Mathlib.Text.{◌==◌ as str_eq}
use text.Mathlib.TextEquality.{eq_iff}
use tenta_cron.Prelude.Tests.{if◌then◌else◌, Bool-cases, str_eq→≡}
use tenta_cron.Prelude.Lists.{All, count_where}

module _ {A : Type 0} (key : A → String) where
  -- `SELECT ... WHERE key = ?`
  unfoldable pub find_by : String → List A → Option A
  find_by k [] = none
  find_by k (x ∷ xs) = if str_eq (key x) k then some x else find_by k xs

  -- `UPDATE ... SET f WHERE key = ?`
  unfoldable pub update_by : String → (A → A) → List A → List A
  update_by k f [] = []
  update_by k f (x ∷ xs) = (if str_eq (key x) k then f x else x) ∷ update_by k f xs

  -- `PRIMARY KEY`
  abbrev pub UniqueBy : List A → Type 0
  UniqueBy [] = Unit
  UniqueBy (x ∷ xs) = (find_by (key x) xs ≡ none) × UniqueBy xs

  pub key-find_by : (k : String) (xs : List A) (x : A) → find_by k xs ≡ some x → key x ≡ k
  unfolding find_by
  key-find_by k [] x h = cc
  key-find_by k (y ∷ xs) x h = ground (arith, eq_iff (key y) k, key-find_by k xs x)

  pub All-find_by :
      (P : A → Type 0) (k : String) (xs : List A) (x : A) → All P xs → find_by k xs ≡ some x → P x
  unfolding find_by
  All-find_by P k [] x a h = cc
  All-find_by P k (y ∷ xs) x a h = ground (arith, All-find_by P k xs x a.1)

  pub find_by-update_by :
      (k j : String) (f : A → A) (xs : List A)
      → ((x : A) → key (f x) ≡ key x)
      → find_by j (update_by k f xs)
        ≡ (if str_eq j k then Option.map f (find_by j xs) else find_by j xs)
  unfolding find_by update_by
  find_by-update_by k j f [] keep = ground arith
  find_by-update_by k j f (x ∷ xs) keep = ground (
    arith,
    keep x,
    eq_iff j k,
    eq_iff (key x) k,
    eq_iff (key x) j,
    eq_iff (key (f x)) j,
    find_by-update_by k j f xs keep,
  )

  -- An update that leaves keys alone misses the keys that are not there.
  find_by-update_by-none :
      (k j : String) (f : A → A) (xs : List A)
      → ((x : A) → key (f x) ≡ key x)
      → find_by j xs ≡ none
      → find_by j (update_by k f xs) ≡ none
  find_by-update_by-none k j f xs keep h = rw (find_by-update_by k j f xs keep) (ground (arith))

  pub UniqueBy-update_by :
      (k : String) (f : A → A) (xs : List A)
      → ((x : A) → key (f x) ≡ key x)
      → UniqueBy xs
      → UniqueBy (update_by k f xs)
  unfolding update_by
  UniqueBy-update_by k f [] keep u = tt
  UniqueBy-update_by k f (x ∷ xs) keep u = (
    ground (arith, keep x, find_by-update_by-none k (key x) f xs keep u.0),
    UniqueBy-update_by k f xs keep u.1,
  )

  pub update_by-none :
      (k : String) (f : A → A) (xs : List A) → find_by k xs ≡ none → update_by k f xs ≡ xs
  unfolding find_by update_by
  update_by-none k f [] h = refl
  update_by-none k f (x ∷ xs) h = ground (arith, update_by-none k f xs)

  -- Only the row that the key names changes.
  pub All-update_by :
      (P : A → Type 0) (k : String) (f : A → A) (xs : List A)
      → UniqueBy xs
      → All P xs
      → ((x : A) → find_by k xs ≡ some x → P (f x))
      → All P (update_by k f xs)
  unfolding find_by update_by
  All-update_by P k f [] u a h = tt
  All-update_by P k f (x ∷ xs) u a h = elim (Bool-cases (str_eq (key x) k)) [
    | inl e ↦
        rw (e, update_by-none k f xs (subst (λ j. find_by j xs ≡ none) (str_eq→≡ _ _ e) u.0))
          (h x (rw e), a.1)
    | inr e ↦ rw e (a.0, All-update_by P k f xs u.1 a.1 (λ y p. h y (rw e p)))
  ]

  pub find_by-append_one :
      (k : String) (xs : List A) (y : A)
      → find_by k (xs ++ y ∷ [])
        ≡ elim (find_by k xs) [ some x ↦ some x | none ↦ if str_eq (key y) k then some y else none ]
  unfolding find_by
  find_by-append_one k [] y = refl
  find_by-append_one k (x ∷ xs) y = ground (arith, find_by-append_one k xs y)

  pub find_by-append_ne :
      (k : String) (xs : List A) (y : A)
      → str_eq (key y) k ≡ false
      → find_by k (xs ++ y ∷ []) ≡ find_by k xs
  unfolding find_by
  find_by-append_ne k [] y ne = rw ne
  find_by-append_ne k (x ∷ xs) y ne = ground (arith, find_by-append_ne k xs y)

  pub UniqueBy-append_one :
      (xs : List A) (y : A) → UniqueBy xs → find_by (key y) xs ≡ none → UniqueBy (xs ++ y ∷ [])
  unfolding find_by
  UniqueBy-append_one [] y u h = (refl, tt)
  UniqueBy-append_one (x ∷ xs) y u h = (
    rw find_by-append_one (ground (arith, eq_iff (key x) (key y), eq_iff (key y) (key x))),
    UniqueBy-append_one xs y u.1 (ground (arith)),
  )

pub All-append_one :
    {A : Type 0} (P : A → Type 0) (xs : List A) (y : A) → All P xs → P y → All P (xs ++ y ∷ [])
All-append_one P [] y a h = (h, tt)
All-append_one P (x ∷ xs) y a h = (a.0, All-append_one P xs y a.1 h)

module _ {A : Type 0} (key : A → String) where
  -- An update that changes neither keys nor the test changes no count by it.
  pub count_where-update_by :
      (p : A → Bool) (k : String) (f : A → A) (xs : List A)
      → ((x : A) → p (f x) ≡ p x)
      → count_where p (update_by key k f xs) ≡ count_where p xs
  unfolding count_where update_by
  count_where-update_by p k f [] same = refl
  count_where-update_by p k f (x ∷ xs) same =
      ground (arith, same x, count_where-update_by p k f xs same)
