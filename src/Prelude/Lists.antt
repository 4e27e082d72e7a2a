-- ===== src/Prelude/Lists.antt =====
-- Tables as lists of rows: the statements of SQL that the store uses, with their laws.
use Prim.Native.Nat.{ℕ, zero, suc, ◌+◌, ◌≤◌}
use mathlib.Core.Path.{◌≡◌, refl}
use native.Mathlib.Omega.{arith}
use mathlib.Core.Bool.{Bool, true, not}
use mathlib.Core.Option.{Option, none, some}
use mathlib.Core.List.{List, [], ◌∷◌, ◌++◌}
use tenta_cron.Prelude.Tests.{if◌then◌else◌}

module _ {ℓ} {A : Type ℓ} where
  abbrev pub length : List A → ℕ
  length [] = 0
  length (x ∷ xs) = suc (length xs)

  -- `LIMIT n`
  abbrev pub take : ℕ → List A → List A
  take zero xs = []
  take (suc n) [] = []
  take (suc n) (x ∷ xs) = x ∷ take n xs

  abbrev pub drop : ℕ → List A → List A
  drop zero xs = xs
  drop (suc n) [] = []
  drop (suc n) (x ∷ xs) = drop n xs

  abbrev pub All : (A → Type 0) → List A → Type 0
  All P [] = Unit
  All P (x ∷ xs) = P x × All P xs

  -- The first row that passes.
  unfoldable pub find_where : (A → Bool) → List A → Option A
  find_where p [] = none
  find_where p (x ∷ xs) = if p x then some x else find_where p xs

  -- `SELECT ... WHERE`
  unfoldable pub select_where : (A → Bool) → List A → List A
  select_where p [] = []
  select_where p (x ∷ xs) = let rest = select_where p xs in if p x then x ∷ rest else rest

  -- `SELECT count(*) ... WHERE`
  unfoldable pub count_where : (A → Bool) → List A → ℕ
  count_where p [] = 0
  count_where p (x ∷ xs) = let rest = count_where p xs in if p x then suc rest else rest

  -- `UPDATE ... SET f WHERE p`
  unfoldable pub update_where : (A → Bool) → (A → A) → List A → List A
  update_where p f [] = []
  update_where p f (x ∷ xs) = (if p x then f x else x) ∷ update_where p f xs

  -- `DELETE ... WHERE p`
  unfoldable pub delete_where : (A → Bool) → List A → List A
  delete_where p xs = select_where (λ x. not (p x)) xs

module _ {ℓ} {A : Type ℓ} where
  pub count_where-append_one :
      (p : A → Bool) (xs : List A) (y : A)
      → count_where p (xs ++ y ∷ []) ≡ count_where p xs + (if p y then 1 else 0)
  unfolding count_where
  count_where-append_one p [] y = ground arith
  count_where-append_one p (x ∷ xs) y = ground (arith, count_where-append_one p xs y)

  pub count_where_zero :
      (p : A → Bool) (xs : List A) → count_where p xs ≡ 0 → find_where p xs ≡ none
  unfolding count_where find_where
  count_where_zero p [] h = refl
  count_where_zero p (x ∷ xs) h = ground (arith, count_where_zero p xs)

  pub count_where-le-length : (p : A → Bool) (xs : List A) → count_where p xs ≤ length xs
  unfolding count_where
  count_where-le-length p [] = omega arith
  count_where-le-length p (x ∷ xs) = ground (arith, count_where-le-length p xs)

  pub find_where-append_one :
      (p : A → Bool) (xs : List A) (y : A)
      → find_where p xs ≡ none
      → find_where p (xs ++ y ∷ []) ≡ (if p y then some y else none)
  unfolding find_where
  find_where-append_one p [] y h = refl
  find_where-append_one p (x ∷ xs) y h = ground (arith, find_where-append_one p xs y)

  pub find_where-passes :
      (p : A → Bool) (xs : List A) (x : A) → find_where p xs ≡ some x → p x ≡ true
  unfolding find_where
  find_where-passes p [] x h = cc
  find_where-passes p (y ∷ xs) x h = ground (arith, find_where-passes p xs x)
