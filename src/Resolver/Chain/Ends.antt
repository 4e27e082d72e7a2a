-- ===== src/Resolver/Chain/Ends.antt =====
-- `Chain` ends: the trail never holds a resolvent twice.
use Prim.Native.Nat.{max}
use tenta_cron.Prelude.{
  ℕ, zero, suc, ◌+◌, ◌≤◌, ◌<◌, ◌≡◌, ◌≢◌, refl, false, List, [], ◌∷◌, ◌==◌, Bool-cases, Option-cases,
  inl, inr, if◌then◌else◌, length, arith, leb, ltb,
}
use tenta_cron.Resolver.Chain.{
  Checked, checked, rejected, Leveled, leveled, unleveled, out_of_fuel, then_level, is_among,
  deps_of, depth_of, level_deps, settle_level, level, level_all, Node, unfinished, grouped,
  chain_bound, chain, bind_from, max_chain_depth,
}
use tenta_cron.Resolver.Chain.Outcome.{OnLeveled, OnLeveled-then}

-- The numbers below `n` that are not on the trail.
unfoldable free : ℕ → List ℕ → ℕ
free zero trail = 0
free (suc n) trail = (if is_among n trail then 0 else 1) + free n trail

free_mono : (n f : ℕ) (trail : List ℕ) → free n (f ∷ trail) ≤ free n trail
unfolding free is_among
free_mono zero f trail = omega arith
free_mono (suc n) f trail = ground (arith, free_mono n f trail)

free_visit :
    (n f : ℕ) (trail : List ℕ)
    → f < n
    → is_among f trail ≡ false
    → free n (f ∷ trail) < free n trail
unfolding free is_among
free_visit zero f trail l v = omega arith
free_visit (suc n) f trail l v = elim (Bool-cases (f == n)) [
  | inl e ↦
      let same : f ≡ n = ground arith in
      let mine : is_among n trail ≡ false = rw (← same) v in
      rw (e, mine) (omega (arith, free_mono n f trail))
  | inr e ↦ let below : f < n = ground arith in rw e (omega (arith, free_visit n f trail below v))
]

free_le : (n : ℕ) → free n [] ≤ n
unfolding free is_among
free_le zero = omega arith
free_le (suc n) = omega (arith, free_le n)

abbrev Ended : Leveled → Type 0
Ended r = OnLeveled Unit ⊥ (λ d ds. Unit) r

deps_of_beyond : (f : ℕ) (dss : List (List ℕ)) → length dss ≤ f → deps_of f dss ≡ []
unfolding deps_of
deps_of_beyond f [] l = refl
deps_of_beyond zero (ds ∷ dss) l = let no : ⊥ = omega arith in elim no [ ]
deps_of_beyond (suc f) (ds ∷ dss) l = deps_of_beyond f dss (omega arith)

settle_level-Ended : (f d : ℕ) (ds : List (ℕ × ℕ)) → Ended (settle_level f d ds)
settle_level-Ended f d ds = elim (Bool-cases (leb max_chain_depth d)) [
  | inl e ↦ rw e tt
  | inr e ↦ rw e tt
]

settled-Ended : (f : ℕ) (r : Leveled) → Ended r → Ended (then_level r (settle_level f))
settled-Ended f r h =
    OnLeveled-then _ _ _ _ r (settle_level f) h (λ d ds _. settle_level-Ended f d ds)

level_deps-Ended :
    (visit : ℕ → List (ℕ × ℕ) → Leveled)
    → ((g : ℕ) (ds : List (ℕ × ℕ)) → Ended (visit g ds))
    → (gs : List ℕ) (d : ℕ) (ds : List (ℕ × ℕ)) → Ended (level_deps visit gs d ds)
unfolding level_deps
level_deps-Ended visit ends [] d ds = tt
level_deps-Ended visit ends (g ∷ gs) d ds =
    OnLeveled-then _ _ _ _ (visit g ds) _ (ends g ds)
      (λ dd next _. level_deps-Ended visit ends gs (max d (dd + 1)) next)

no_deps-Ended :
    (visit : ℕ → List (ℕ × ℕ) → Leveled) (ds : List (ℕ × ℕ)) → Ended (level_deps visit [] 0 ds)
unfolding level_deps
no_deps-Ended visit ds = tt

module _ (dss : List (List ℕ)) where
  level-Ended :
      (fuel : ℕ) (trail : List ℕ) (f : ℕ) (ds : List (ℕ × ℕ))
      → free (length dss) trail < fuel
      → Ended (level fuel dss trail f ds)
  unfolding level
  level-Ended zero trail f ds l = omega arith
  level-Ended (suc fuel) trail f ds l = elim (Option-cases (depth_of f ds)) [
    | inr (d, e) ↦ rw e tt
    | inl e ↦ elim (Bool-cases (is_among f trail)) [
      | inl v ↦ rw (e, v) tt
      | inr v ↦
          rw (e, v)
            (settled-Ended f (level_deps (level fuel dss (f ∷ trail)) (deps_of f dss) 0 ds)
              (elim (Bool-cases (ltb f (length dss))) [
                | inl b ↦
                    let inside : f < length dss = ground arith in
                    level_deps-Ended (level fuel dss (f ∷ trail))
                      (λ g next.
                        level-Ended fuel (f ∷ trail) g next
                          (omega (arith, free_visit (length dss) f trail inside v)))
                      (deps_of f dss) 0 ds
                | inr b ↦
                    let beyond : length dss ≤ f = ground arith in
                    rw (deps_of_beyond f dss beyond) (no_deps-Ended (level fuel dss (f ∷ trail)) ds)
              ]))
    ]
  ]

  level_all-Ended :
      (f : ℕ) (rest : List (List ℕ)) (ds : List (ℕ × ℕ))
      → Ended (level_all (suc (length dss)) dss f rest ds)
  unfolding level_all
  level_all-Ended f [] ds = tt
  level_all-Ended f (_ ∷ rest) ds =
      OnLeveled-then _ _ _ _ (level (suc (length dss)) dss [] f ds) _
        (level-Ended (suc (length dss)) [] f ds (omega (arith, free_le (length dss))))
        (λ d next _. level_all-Ended (suc f) rest next)

grouped-ends : (dss : List (List ℕ)) (r : Leveled) → Ended r → grouped dss r ≢ unfinished
grouped-ends dss (leveled d ds) h e = cc
grouped-ends dss (unleveled x) h e = cc
grouped-ends dss out_of_fuel h e = h

chain_bound-ends : (c : Checked (List (List ℕ))) → chain_bound c ≢ unfinished
chain_bound-ends (checked dss) e = grouped-ends dss _ (level_all-Ended dss 0 dss []) e
chain_bound-ends (rejected x) e = cc

-- Whatever a payload's resolvents reference, cycles included, following the references ends: one
-- more step than there are resolvents is enough on every chain, and `Chain` answers with levels or
-- with an error.
pub chain-ends : (nodes : List Node) → chain nodes ≢ unfinished
unfolding chain
chain-ends nodes = chain_bound-ends (bind_from nodes 0 nodes)
