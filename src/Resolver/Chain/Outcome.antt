-- ===== src/Resolver/Chain/Outcome.antt =====
-- What holds of the outcome of `level`, part by part.
use tenta_cron.Prelude.{ℕ, List}
use tenta_cron.Resolver.Chain.{Leveled, leveled, unleveled, out_of_fuel, then_level}

-- `P` of a depth with the known depths, `E` of an error, `F` where the fuel is used up.
abbrev pub OnLeveled : Type 0 → Type 0 → (ℕ → List (ℕ × ℕ) → Type 0) → Leveled → Type 0
OnLeveled E F P (leveled d ds) = P d ds
OnLeveled E F P (unleveled x) = E
OnLeveled E F P out_of_fuel = F

pub OnLeveled-then :
    (E F : Type 0) (P Q : ℕ → List (ℕ × ℕ) → Type 0) (r : Leveled) (k : ℕ → List (ℕ × ℕ) → Leveled)
    → OnLeveled E F P r
    → ((d : ℕ) (ds : List (ℕ × ℕ)) → P d ds → OnLeveled E F Q (k d ds))
    → OnLeveled E F Q (then_level r k)
OnLeveled-then E F P Q (leveled d ds) k p f = f d ds p
OnLeveled-then E F P Q (unleveled x) k p f = p
OnLeveled-then E F P Q out_of_fuel k p f = p

pub OnLeveled-map :
    (E F : Type 0) (P Q : ℕ → List (ℕ × ℕ) → Type 0) (r : Leveled)
    → OnLeveled E F P r
    → ((d : ℕ) (ds : List (ℕ × ℕ)) → P d ds → Q d ds)
    → OnLeveled E F Q r
OnLeveled-map E F P Q (leveled d ds) p f = f d ds p
OnLeveled-map E F P Q (unleveled x) p f = p
OnLeveled-map E F P Q out_of_fuel p f = p
