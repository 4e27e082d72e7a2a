-- ===== src/Resolver/Chain/Levels.antt =====
-- `Chain`'s levels against the depths, and the whole of `Chain` where it succeeds.
use tenta_cron.Prelude.{
  ℕ, zero, suc, ◌≡◌, refl, sym, ◌∙◌, ap, Bool, false, Option, none, some, List, [], ◌∷◌, ◌++◌, ◌==◌,
  Bool-cases, inl, inr, if◌then◌else◌, length, arith,
}
use tenta_cron.Resolver.Chain.{
  checked, Leveled, leveled, unleveled, out_of_fuel, deps_of, depth_of, level, level_all,
  place_level, group_from, Node, levels, grouped, chain, bind_from,
}
use tenta_cron.Resolver.Chain.Outcome.{OnLeveled, OnLeveled-then, OnLeveled-map}
use tenta_cron.Resolver.Chain.Sound.{
  Depths, Grows, Sound, Extends, Extends-refl, Extends-trans, LevelDone, level-Done,
}

abbrev pub is_depth : ℕ → Option ℕ → Bool
is_depth d none = false
is_depth d (some e) = e == d

-- The resolvents of one depth, in document order from `f` on.
abbrev pub at_depth : Depths → ℕ → ℕ → List (List ℕ) → List ℕ
at_depth ds d f [] = []
at_depth ds d f (_ ∷ rest) =
    let more = at_depth ds d (suc f) rest in if is_depth d (depth_of f ds) then f ∷ more else more

append_nil : (xs : List ℕ) → xs ++ [] ≡ xs
append_nil [] = refl
append_nil (x ∷ xs) = rw (append_nil xs) refl

levels_injective : {ls ms : List (List ℕ)} → levels ls ≡ levels ms → ls ≡ ms
levels_injective e = cc

append_one : (xs : List ℕ) (f : ℕ) (ys : List ℕ) → (xs ++ f ∷ []) ++ ys ≡ xs ++ f ∷ ys
append_one [] f ys = refl
append_one (x ∷ xs) f ys = rw (append_one xs f ys) refl

deps_of-place_level :
    (d f : ℕ) (ls : List (List ℕ)) (e : ℕ)
    → deps_of e (place_level d f ls) ≡ (if d == e then deps_of e ls ++ f ∷ [] else deps_of e ls)
unfolding deps_of place_level
deps_of-place_level zero f [] zero = refl
deps_of-place_level zero f [] (suc e) = ground arith
deps_of-place_level zero f (l ∷ ls) zero = refl
deps_of-place_level zero f (l ∷ ls) (suc e) = ground arith
deps_of-place_level (suc d) f [] zero = ground arith
deps_of-place_level (suc d) f [] (suc e) = ground (arith, deps_of-place_level d f [] e)
deps_of-place_level (suc d) f (l ∷ ls) zero = ground arith
deps_of-place_level (suc d) f (l ∷ ls) (suc e) = ground (arith, deps_of-place_level d f ls e)

-- All of the resolvents from `f` on are known.
abbrev pub Known : Depths → ℕ → List (List ℕ) → Type 0
Known ds f [] = Unit
Known ds f (_ ∷ rest) = ((d : ℕ) × (depth_of f ds ≡ some d)) × Known ds (suc f) rest

deps_of-group_from :
    (ds : Depths) (f : ℕ) (rest ls : List (List ℕ)) (e : ℕ)
    → Known ds f rest
    → deps_of e (group_from ds f rest ls) ≡ deps_of e ls ++ at_depth ds e f rest
unfolding group_from
deps_of-group_from ds f [] ls e k = sym (append_nil (deps_of e ls))
deps_of-group_from ds f (r ∷ rest) ls e ((d, h), k) = elim (Bool-cases (d == e)) [
  | inl q ↦
      rw
        (
          h,
          q,
          deps_of-group_from ds (suc f) rest (place_level d f ls) e k,
          deps_of-place_level d f ls e,
          q,
        )
        (append_one (deps_of e ls) f (at_depth ds e (suc f) rest))
  | inr q ↦
      rw
        (
          h,
          q,
          deps_of-group_from ds (suc f) rest (place_level d f ls) e k,
          deps_of-place_level d f ls e,
          q,
        )
        refl
]

Known-Grows :
    (ds ds' : Depths) (f : ℕ) (rest : List (List ℕ))
    → Grows ds ds'
    → Known ds f rest
    → Known ds' f rest
Known-Grows ds ds' f [] grow k = tt
Known-Grows ds ds' f (r ∷ rest) grow ((d, h), k) =
    ((d, grow f d h), Known-Grows ds ds' (suc f) rest grow k)

pub record AllDone (dss : List (List ℕ)) (f : ℕ) (rest : List (List ℕ)) (ds ds' : Depths)
    : Type 0 where
  pub extends : Extends dss [] ds ds'
  pub known : Known ds' f rest

level_all-Done :
    (fuel : ℕ) (dss : List (List ℕ)) (f : ℕ) (rest : List (List ℕ)) (ds : Depths)
    → Sound dss ds
    → OnLeveled Unit Unit (λ _ ds'. AllDone dss f rest ds ds') (level_all fuel dss f rest ds)
unfolding level_all
level_all-Done fuel dss f [] ds s = record { extends = Extends-refl dss [] ds s; known = tt }
level_all-Done fuel dss f (r ∷ rest) ds s =
    OnLeveled-then _ _ (LevelDone dss [] f ds) (λ _ ds'. AllDone dss f (r ∷ rest) ds ds')
      (level fuel dss [] f ds) (λ d next. level_all fuel dss (suc f) rest next)
      (level-Done dss fuel [] f ds s)
      (λ d next one.
        OnLeveled-map _ _ (λ _ ds'. AllDone dss (suc f) rest next ds')
          (λ _ ds'. AllDone dss f (r ∷ rest) ds ds') (level_all fuel dss (suc f) rest next)
          (level_all-Done fuel dss (suc f) rest next one.extends.sound)
          (λ _ ds' all. record {
            extends = Extends-trans dss [] ds next ds' one.extends all.extends;
            known = ((d, all.extends.grows f d one.known), all.known);
          }))

-- Levels that fit the dependencies.
pub record Fit (dss ls : List (List ℕ)) : Type 0 where
  pub depths : Depths
  pub known : Known depths 0 dss
  pub sound : Sound dss depths
  pub placed : (d : ℕ) → deps_of d ls ≡ at_depth depths d 0 dss

grouped-Fit :
    (dss ls : List (List ℕ)) (r : Leveled)
    → OnLeveled Unit Unit (λ _ ds'. AllDone dss 0 dss [] ds') r
    → grouped dss r ≡ levels ls
    → Fit dss ls
unfolding deps_of
grouped-Fit dss ls (leveled d ds) all e = record {
  depths = ds;
  known = all.known;
  sound = all.extends.sound;
  placed =
      λ k. ap (deps_of k) (sym (levels_injective e)) ∙ deps_of-group_from ds 0 dss [] k all.known;
}
grouped-Fit dss ls (unleveled x) all e = let no : ⊥ = cc in elim no [ ]
grouped-Fit dss ls out_of_fuel all e = let no : ⊥ = cc in elim no [ ]

-- Where `Chain` succeeds, there is a depth below the bound for every resolvent such that level `d`
-- lists the resolvents of depth `d` in document order, every resolvent that one references has a
-- smaller depth, and a depth above 0 is one more than that of some resolvent it references.
pub chain-Fit :
    (nodes : List Node) (dss ls : List (List ℕ))
    → bind_from nodes 0 nodes ≡ checked dss
    → chain nodes ≡ levels ls
    → Fit dss ls
unfolding chain depth_of
chain-Fit nodes dss ls b e =
    grouped-Fit dss ls (level_all (suc (length dss)) dss 0 dss [])
      (level_all-Done (suc (length dss)) dss 0 dss [] (λ f d h. let no : ⊥ = cc in elim no [ ]))
      (rw b at e)
