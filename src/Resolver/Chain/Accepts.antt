-- ===== src/Resolver/Chain/Accepts.antt =====
-- What `Chain` accepts: dependencies that can be ranked below the bound.
use Prim.Native.Nat.{max}
use tenta_cron.Prelude.{
  ℕ, zero, suc, ◌+◌, ◌≤◌, ◌<◌, ◌≡◌, ◌≢◌, ◌↔◌, refl, ap, true, false, Option, none, some, List, [],
  ◌∷◌, ◌==◌, Bool-cases, Option-cases, inl, inr, ◌⊎◌, length, arith, leb, or_true, some_injective,
}
use tenta_cron.Resolver.Chain.{
  checked, Leveled, leveled, unleveled, out_of_fuel, then_level, is_among, deps_of, depth_of,
  level_deps, settle_level, level, level_all, Node, levels, unfinished, grouped, chain_bound, chain,
  bind_from, max_chain_depth,
}
use tenta_cron.Resolver.Chain.Outcome.{OnLeveled, OnLeveled-then}
use tenta_cron.Resolver.Chain.Ends.{chain-ends}
use tenta_cron.Resolver.Chain.Sound.{Depths}
use tenta_cron.Resolver.Chain.Levels.{Fit, Known, chain-Fit}

-- A rank that falls along every reference and is below the bound.
pub record Ranking (dss : List (List ℕ)) : Type 0 where
  pub rank : ℕ → ℕ
  pub falls : (f g : ℕ) → is_among g (deps_of f dss) ≡ true → rank g < rank f
  pub bounded : (f : ℕ) → rank f < max_chain_depth

module _ (dss : List (List ℕ)) (ranking : Ranking dss) where
  abbrev Ranked : Depths → Type 0
  Ranked ds = (f d : ℕ) → depth_of f ds ≡ some d → d ≤ ranking.rank f

  -- No error, and a depth within `b`.
  abbrev Fits : ℕ → Leveled → Type 0
  Fits b r = OnLeveled ⊥ Unit (λ d ds. (d ≤ b) × Ranked ds) r

  Ranked-known : (f d : ℕ) (ds : Depths) → d ≤ ranking.rank f → Ranked ds → Ranked ((f, d) ∷ ds)
  unfolding depth_of
  Ranked-known f d ds l r g e h = elim (Bool-cases (f == g)) [
    | inl q ↦
        let same : f ≡ g = ground arith in
        let depth : d ≡ e = some_injective (rw q at h) in rw (← same, ← depth) l
    | inr q ↦ r g e (rw q at h)
  ]

  level_deps-Fits :
      (visit : ℕ → Depths → Leveled) (b : ℕ) (gs : List ℕ)
      → ((g : ℕ) (ds : Depths)
          → is_among g gs ≡ true
          → Ranked ds
          → Fits (ranking.rank g) (visit g ds))
      → ((g : ℕ) → is_among g gs ≡ true → ranking.rank g < b)
      → (d : ℕ) (ds : Depths) → d ≤ b
      → Ranked ds
      → Fits b (level_deps visit gs d ds)
  unfolding level_deps is_among
  level_deps-Fits visit b [] fits low d ds l r = (l, r)
  level_deps-Fits visit b (g ∷ gs) fits low d ds l r =
      let here : is_among g (g ∷ gs) ≡ true = ground arith in
      OnLeveled-then _ _ (λ dd next. (dd ≤ ranking.rank g) × Ranked next) _ (visit g ds)
        (λ dd next. level_deps visit gs (max d (dd + 1)) next) (fits g ds here r)
        (λ dd next k.
          level_deps-Fits visit b gs (λ h next m. fits h next (rw m (or_true (g == h))))
            (λ h m. low h (rw m (or_true (g == h)))) (max d (dd + 1)) next
            (omega (arith, k.0, low g here)) k.1)

  settled-Fits :
      (f : ℕ) (r : Leveled)
      → Fits (ranking.rank f) r
      → Fits (ranking.rank f) (then_level r (settle_level f))
  settled-Fits f r h =
      OnLeveled-then _ _ (λ d ds. (d ≤ ranking.rank f) × Ranked ds) _ r (settle_level f) h
        (λ d ds k.
          let shallow : leb max_chain_depth d ≡ false = ground (arith, k.0, ranking.bounded f) in
          rw shallow (k.0, Ranked-known f d ds k.0 k.1))

  above_all :
      (trail : List ℕ) (f g h : ℕ)
      → ((k : ℕ) → is_among k trail ≡ true → ranking.rank f < ranking.rank k)
      → ranking.rank g < ranking.rank f
      → is_among h (f ∷ trail) ≡ true
      → ranking.rank g < ranking.rank h
  unfolding is_among
  above_all trail f g h above l m = elim (Bool-cases (f == h)) [
    | inl q ↦ let same : f ≡ h = ground arith in rw (← same) l
    | inr q ↦ omega (arith, l, above h (rw q at m))
  ]

  level-Fits :
      (fuel : ℕ) (trail : List ℕ) (f : ℕ) (ds : Depths)
      → ((g : ℕ) → is_among g trail ≡ true → ranking.rank f < ranking.rank g)
      → Ranked ds
      → Fits (ranking.rank f) (level fuel dss trail f ds)
  unfolding level is_among
  level-Fits zero trail f ds above r = tt
  level-Fits (suc fuel) trail f ds above r = elim (Option-cases (depth_of f ds)) [
    | inr (d, e) ↦ rw e (r f d e, r)
    | inl e ↦ elim (Bool-cases (is_among f trail)) [
      | inl v ↦ let no : ⊥ = omega (arith, above f v) in elim no [ ]
      | inr v ↦
          rw (e, v)
            (settled-Fits f (level_deps (level fuel dss (f ∷ trail)) (deps_of f dss) 0 ds) (
              level_deps-Fits (level fuel dss (f ∷ trail)) (ranking.rank f) (deps_of f dss)
                (λ g next m.
                  level-Fits fuel (f ∷ trail) g next
                    (λ h n. above_all trail f g h above (ranking.falls f g m) n))
                (λ g m. ranking.falls f g m) 0 ds (omega arith) r))
    ]
  ]

  level_all-Fits :
      (fuel f : ℕ) (rest : List (List ℕ)) (ds : Depths)
      → Ranked ds
      → OnLeveled ⊥ Unit (λ _ _. Unit) (level_all fuel dss f rest ds)
  unfolding level_all is_among
  level_all-Fits fuel f [] ds r = tt
  level_all-Fits fuel f (_ ∷ rest) ds r =
      OnLeveled-then _ _ (λ d next. (d ≤ ranking.rank f) × Ranked next) _ (level fuel dss [] f ds)
        (λ d next. level_all fuel dss (suc f) rest next)
        (level-Fits fuel [] f ds (λ g m. let no : ⊥ = cc in elim no [ ]) r)
        (λ d next k. level_all-Fits fuel (suc f) rest next k.1)

  no_depths-Ranked : Ranked []
  unfolding depth_of
  no_depths-Ranked f d h = let no : ⊥ = cc in elim no [ ]

  grouped-accepts :
      (r : Leveled)
      → OnLeveled ⊥ Unit (λ _ _. Unit) r
      → grouped dss r ≢ unfinished
      → (ls : List (List ℕ)) × (grouped dss r ≡ levels ls)
  grouped-accepts (leveled d ds) h e = (_, refl)
  grouped-accepts (unleveled x) h e = elim h [ ]
  grouped-accepts out_of_fuel h e = let no : ⊥ = e refl in elim no [ ]

abbrev rank_or_zero : Option ℕ → ℕ
rank_or_zero none = 0
rank_or_zero (some d) = d

Known-at :
    (ds : Depths) (k : ℕ) (rest : List (List ℕ)) (f : ℕ)
    → Known ds k rest
    → (deps_of f rest ≡ []) ⊎ ((d : ℕ) × (depth_of (k + f) ds ≡ some d))
unfolding deps_of
Known-at ds k [] f h = inl refl
Known-at ds k (_ ∷ rest) zero ((d, e), h) = let here : k + 0 ≡ k = omega arith in inr (d, rw here e)
Known-at ds k (_ ∷ rest) (suc f) (e, h) =
    let next : k + suc f ≡ suc k + f = omega arith in rw next (Known-at ds (suc k) rest f h)

known_rank :
    (dss ls : List (List ℕ)) (fit : Fit dss ls) (f : ℕ)
    → (deps_of f dss ≡ []) ⊎ ((d : ℕ) × (depth_of f fit.depths ≡ some d))
known_rank dss ls fit f =
    let here : 0 + f ≡ f = omega arith in rw here at (Known-at fit.depths 0 dss f fit.known)

Fit-Ranking : (dss ls : List (List ℕ)) → Fit dss ls → Ranking dss
unfolding is_among
Fit-Ranking dss ls fit = record {
  rank = λ f. rank_or_zero (depth_of f fit.depths);
  falls = λ f g m. elim (known_rank dss ls fit f) [
    | inl e ↦ let no : ⊥ = cc (rw e at m) in elim no [ ]
    | inr (d, e) ↦ let k = (fit.sound f d e).1.deeper g m in rw (e, k.1) k.2
  ];
  bounded = λ f. elim (Option-cases (depth_of f fit.depths)) [
    | inl e ↦ rw e (omega arith)
    | inr (d, e) ↦ rw e ((fit.sound f d e).0)
  ];
}

unfinished_never : (nodes : List Node) → chain_bound (bind_from nodes 0 nodes) ≢ unfinished
unfolding chain
unfinished_never nodes = chain-ends nodes

-- Once the names are bound, `Chain` succeeds exactly when the dependencies can be ranked: by a number
-- below the bound that falls along every reference. So it refuses cycles and chains that are too deep,
-- and nothing else.
pub chain-accepts :
    (nodes : List Node) (dss : List (List ℕ))
    → bind_from nodes 0 nodes ≡ checked dss
    → ((ls : List (List ℕ)) × (chain nodes ≡ levels ls)) ↔ Ranking dss
unfolding chain
chain-accepts nodes dss b = (
  λ (ls, e). Fit-Ranking dss ls (chain-Fit nodes dss ls b e),
  λ ranking. rw b (
      grouped-accepts dss ranking (level_all (suc (length dss)) dss 0 dss [])
        (level_all-Fits dss ranking (suc (length dss)) 0 dss [] (no_depths-Ranked dss ranking))
        (rw (ap chain_bound b) at (unfinished_never nodes))),
)
