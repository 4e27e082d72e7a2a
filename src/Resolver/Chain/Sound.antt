-- ===== src/Resolver/Chain/Sound.antt =====
-- The depths of `level`: every dependency of a resolvent lies strictly below it.
use Prim.Native.Nat.{max}
use tenta_cron.Prelude.{
  ℕ, zero, suc, ◌+◌, ◌≤◌, ◌<◌, ◌≡◌, ◌⊎◌, refl, sym, ◌∙◌, ap, true, false, none, some, List, [], ◌∷◌,
  ◌==◌, Bool-cases, Option-cases, inl, inr, arith, leb, or_true, some_injective,
}
use tenta_cron.Resolver.Chain.{
  Leveled, then_level, is_among, deps_of, depth_of, level_deps, settle_level, level,
  max_chain_depth,
}
use tenta_cron.Resolver.Chain.Outcome.{OnLeveled, OnLeveled-then, OnLeveled-map}

abbrev pub Depths : Type 0
Depths = List (ℕ × ℕ)

-- Known depths stay.
abbrev pub Grows : Depths → Depths → Type 0
Grows ds ds' = (g e : ℕ) → depth_of g ds ≡ some e → depth_of g ds' ≡ some e

-- What is on the trail stays unknown.
abbrev pub Apart : List ℕ → Depths → Depths → Type 0
Apart trail ds ds' =
    (g : ℕ) → is_among g trail ≡ true → depth_of g ds ≡ none → depth_of g ds' ≡ none

-- Some known resolvent of the list is one level up.
pub record Below (gs : List ℕ) (ds : Depths) (d : ℕ) : Type 0 where
  pub dep : ℕ
  pub depth : ℕ
  pub among : is_among dep gs ≡ true
  pub known : depth_of dep ds ≡ some depth
  pub next : d ≡ suc depth

-- All of the list are known and below `d`, and `d` is no more than that takes.
pub record Over (gs : List ℕ) (ds : Depths) (d : ℕ) : Type 0 where
  pub deeper : (g : ℕ) → is_among g gs ≡ true → (e : ℕ) × (depth_of g ds ≡ some e) × (e < d)
  pub tight : (d ≡ 0) ⊎ Below gs ds d

-- Every known depth fits the dependencies.
abbrev pub Sound : List (List ℕ) → Depths → Type 0
Sound dss ds =
    (f d : ℕ) → depth_of f ds ≡ some d → (d < max_chain_depth) × Over (deps_of f dss) ds d

Grows-refl : (ds : Depths) → Grows ds ds
Grows-refl ds g e h = h

Below-Grows :
    (gs : List ℕ) (ds ds' : Depths) (d : ℕ) → Grows ds ds' → Below gs ds d → Below gs ds' d
Below-Grows gs ds ds' d grow b = record {
  dep = b.dep;
  depth = b.depth;
  among = b.among;
  known = grow b.dep b.depth b.known;
  next = b.next;
}

pub Over-Grows :
    (gs : List ℕ) (ds ds' : Depths) (d : ℕ) → Grows ds ds' → Over gs ds d → Over gs ds' d
Over-Grows gs ds ds' d grow o = record {
  deeper = λ g m. let k = o.deeper g m in (k.0, grow g k.0 k.1, k.2);
  tight = elim (o.tight) [ inl z ↦ inl z | inr b ↦ inr (Below-Grows gs ds ds' d grow b) ];
}

-- A new depth is put in front of the known ones.
Grows-known : (f d : ℕ) (ds : Depths) → depth_of f ds ≡ none → Grows ds ((f, d) ∷ ds)
unfolding depth_of
Grows-known f d ds fresh g e h = elim (Bool-cases (f == g)) [
  | inl q ↦
      let same : f ≡ g = ground arith in
      let no : ⊥ = cc (ap (λ x. depth_of x ds) same) in elim no [ ]
  | inr q ↦ rw q h
]

depth_of_own : (f d : ℕ) (ds : Depths) → depth_of f ((f, d) ∷ ds) ≡ some d
unfolding depth_of
depth_of_own f d ds = ground arith

Sound-known :
    (dss : List (List ℕ)) (f d : ℕ) (ds : Depths)
    → depth_of f ds ≡ none
    → d < max_chain_depth
    → Over (deps_of f dss) ds d
    → Sound dss ds
    → Sound dss ((f, d) ∷ ds)
unfolding depth_of
Sound-known dss f d ds fresh l o sound g e h = elim (Bool-cases (f == g)) [
  | inl q ↦
      let same : f ≡ g = ground arith in
      let depth : d ≡ e = some_injective (rw q at h) in
      rw (← same, ← depth)
        (l, Over-Grows (deps_of f dss) ds ((f, d) ∷ ds) d (Grows-known f d ds fresh) o)
  | inr q ↦
      let old : depth_of g ds ≡ some e = rw q at h in
      let k = sound g e old in
      (k.0, Over-Grows (deps_of g dss) ds ((f, d) ∷ ds) e (Grows-known f d ds fresh) k.1)
]

-- What a call with this trail does to the known depths.
pub record Extends (dss : List (List ℕ)) (trail : List ℕ) (ds ds' : Depths) : Type 0 where
  pub sound : Sound dss ds'
  pub grows : Grows ds ds'
  pub apart : Apart trail ds ds'

pub record LevelDone (dss : List (List ℕ)) (trail : List ℕ) (f : ℕ) (ds : Depths) (d : ℕ)
    (ds' : Depths) : Type 0 where
  pub extends : Extends dss trail ds ds'
  pub known : depth_of f ds' ≡ some d

pub record DepsDone (dss : List (List ℕ)) (trail gs : List ℕ) (d₀ : ℕ) (ds : Depths) (d : ℕ)
    (ds' : Depths) : Type 0 where
  pub extends : Extends dss trail ds ds'
  pub deeper : (g : ℕ) → is_among g gs ≡ true → (e : ℕ) × (depth_of g ds' ≡ some e) × (e < d)
  pub least : d₀ ≤ d
  pub tight : (d ≡ d₀) ⊎ Below gs ds' d

pub Extends-refl :
    (dss : List (List ℕ)) (trail : List ℕ) (ds : Depths) → Sound dss ds → Extends dss trail ds ds
Extends-refl dss trail ds s = record { sound = s; grows = Grows-refl ds; apart = λ g m h. h }

pub Extends-trans :
    (dss : List (List ℕ)) (trail : List ℕ) (a b c : Depths)
    → Extends dss trail a b
    → Extends dss trail b c
    → Extends dss trail a c
Extends-trans dss trail a b c x y = record {
  sound = y.sound;
  grows = λ g e h. y.grows g e (x.grows g e h);
  apart = λ g m h. y.apart g m (x.apart g m h);
}

DepsDone-tight :
    (g : ℕ) (gs : List ℕ) (d₀ e : ℕ) (ds : Depths) (d : ℕ)
    → depth_of g ds ≡ some e
    → (d ≡ max d₀ (e + 1)) ⊎ Below gs ds d
    → (d ≡ d₀) ⊎ Below (g ∷ gs) ds d
unfolding is_among
DepsDone-tight g gs d₀ e ds d here (inl m) = elim (Bool-cases (leb (e + 1) d₀)) [
  | inl l ↦ inl (ground arith)
  | inr l ↦
      inr (record { dep = g; depth = e; among = ground arith; known = here; next = ground arith })
]
DepsDone-tight g gs d₀ e ds d here (inr b) = inr (record {
  dep = b.dep;
  depth = b.depth;
  among = rw b.among (or_true (g == b.dep));
  known = b.known;
  next = b.next;
})

module _ (dss : List (List ℕ)) (trail : List ℕ) where
  -- One more dependency, whose depth is `e`, in front of a finished loop.
  DepsDone-∷ :
      (g : ℕ) (gs : List ℕ) (d₀ e : ℕ) (ds mid : Depths) (d : ℕ) (ds' : Depths)
      → LevelDone dss trail g ds e mid
      → DepsDone dss trail gs (max d₀ (e + 1)) mid d ds'
      → DepsDone dss trail (g ∷ gs) d₀ ds d ds'
  unfolding is_among
  DepsDone-∷ g gs d₀ e ds mid d ds' one rest =
      let here : depth_of g ds' ≡ some e = rest.extends.grows g e one.known in
      record {
        extends = Extends-trans dss trail ds mid ds' one.extends rest.extends;
        deeper = λ h m. elim (Bool-cases (g == h)) [
          | inl q ↦
              let same : g ≡ h = ground arith in
              (e, ap (λ x. depth_of x ds') (sym same) ∙ here, omega (arith, rest.least))
          | inr q ↦ rest.deeper h (rw q at m)
        ];
        least = omega (arith, rest.least);
        tight = DepsDone-tight g gs d₀ e ds' d here rest.tight;
      }

  level_deps-Done :
      (visit : ℕ → Depths → Leveled)
      → ((g : ℕ) (ds : Depths)
          → Sound dss ds
          → OnLeveled Unit Unit (LevelDone dss trail g ds) (visit g ds))
      → (gs : List ℕ) (d : ℕ) (ds : Depths) → Sound dss ds
      → OnLeveled Unit Unit (DepsDone dss trail gs d ds) (level_deps visit gs d ds)
  unfolding level_deps is_among
  level_deps-Done visit done [] d ds s = record {
    extends = Extends-refl dss trail ds s;
    deeper = λ g m. let no : ⊥ = cc in elim no [ ];
    least = omega arith;
    tight = inl refl;
  }
  level_deps-Done visit done (g ∷ gs) d ds s =
      OnLeveled-then _ _ (LevelDone dss trail g ds) (DepsDone dss trail (g ∷ gs) d ds) (visit g ds)
        (λ dd next. level_deps visit gs (max d (dd + 1)) next) (done g ds s)
        (λ dd next one.
          OnLeveled-map _ _ (DepsDone dss trail gs (max d (dd + 1)) next)
            (DepsDone dss trail (g ∷ gs) d ds) (level_deps visit gs (max d (dd + 1)) next)
            (level_deps-Done visit done gs (max d (dd + 1)) next one.extends.sound)
            (λ d' ds' rest. DepsDone-∷ g gs d dd ds next d' ds' one rest))

is_among-head : (f : ℕ) (fs : List ℕ) → is_among f (f ∷ fs) ≡ true
unfolding is_among
is_among-head f fs = ground arith

is_among-tail : (f g : ℕ) (fs : List ℕ) → is_among f fs ≡ true → is_among f (g ∷ fs) ≡ true
unfolding is_among
is_among-tail f g fs h = rw h (or_true (g == f))

Apart-known :
    (trail : List ℕ) (f d : ℕ) (ds ds' : Depths)
    → is_among f trail ≡ false
    → Apart (f ∷ trail) ds ds'
    → Apart trail ds ((f, d) ∷ ds')
unfolding depth_of
Apart-known trail f d ds ds' v a g m h = elim (Bool-cases (f == g)) [
  | inl q ↦
      let same : f ≡ g = ground arith in
      let no : ⊥ = cc (ap (λ x. is_among x trail) same) in elim no [ ]
  | inr q ↦ rw q (a g (is_among-tail g f trail m) h)
]

module _ (dss : List (List ℕ)) where
  settle_level-Done :
      (trail : List ℕ) (f d : ℕ) (ds ds' : Depths)
      → depth_of f ds ≡ none
      → is_among f trail ≡ false
      → DepsDone dss (f ∷ trail) (deps_of f dss) 0 ds d ds'
      → OnLeveled Unit Unit (LevelDone dss trail f ds) (settle_level f d ds')
  settle_level-Done trail f d ds ds' fresh v done = elim (Bool-cases (leb max_chain_depth d)) [
    | inl deep ↦ rw deep tt
    | inr shallow ↦
        let new : depth_of f ds' ≡ none = done.extends.apart f (is_among-head f trail) fresh in
        let l : d < max_chain_depth = ground arith in
        let over : Over (deps_of f dss) ds' d = record {
          deeper = done.deeper;
          tight = done.tight;
        } in
        rw shallow (record {
          extends = record {
            sound = Sound-known dss f d ds' new l over done.extends.sound;
            grows = λ g e h. Grows-known f d ds' new g e (done.extends.grows g e h);
            apart = Apart-known trail f d ds ds' v done.extends.apart;
          };
          known = depth_of_own f d ds';
        })
  ]

  settled-Done :
      (fuel : ℕ) (trail : List ℕ) (f : ℕ) (ds : Depths)
      → depth_of f ds ≡ none
      → is_among f trail ≡ false
      → OnLeveled Unit Unit
          (DepsDone dss (f ∷ trail) (deps_of f dss) 0 ds)
          (level_deps (level fuel dss (f ∷ trail)) (deps_of f dss) 0 ds)
      → OnLeveled Unit Unit (LevelDone dss trail f ds) (
          then_level
            (level_deps (level fuel dss (f ∷ trail)) (deps_of f dss) 0 ds)
            (settle_level f))
  settled-Done fuel trail f ds e v h =
      OnLeveled-then _ _ (DepsDone dss (f ∷ trail) (deps_of f dss) 0 ds) (LevelDone dss trail f ds)
        _ (settle_level f) h (λ d ds' done. settle_level-Done trail f d ds ds' e v done)

  pub level-Done :
      (fuel : ℕ) (trail : List ℕ) (f : ℕ) (ds : Depths)
      → Sound dss ds
      → OnLeveled Unit Unit (LevelDone dss trail f ds) (level fuel dss trail f ds)
  unfolding level
  level-Done zero trail f ds s = tt
  level-Done (suc fuel) trail f ds s = elim (Option-cases (depth_of f ds)) [
    | inr (d, e) ↦ rw e (record { extends = Extends-refl dss trail ds s; known = e })
    | inl e ↦ elim (Bool-cases (is_among f trail)) [
      | inl v ↦ rw (e, v) tt
      | inr v ↦
          rw (e, v)
            (settled-Done fuel trail f ds e v (
              level_deps-Done dss (f ∷ trail) (level fuel dss (f ∷ trail))
                (λ g next. level-Done fuel (f ∷ trail) g next) (deps_of f dss) 0 ds s))
    ]
  ]
