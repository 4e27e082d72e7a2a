-- ===== src/Plan/Ready.antt =====
-- What a plan without problems promises the worker.
use tenta_cron.Prelude.{
  ◌≡◌, refl, sym, ◌∙◌, ap, String, str_eq, str_eq→≡, true, ◌⊎◌, Option, none, some, List, [], ◌∷◌,
  ◌++◌, map, is_some, Bool-cases, Option-cases, inl, inr, All,
}
use tenta_cron.Resolver.Json.{object, Fields}
use tenta_cron.Resolver.Chain.{Chained, levels, broken, unfinished, chain}
use tenta_cron.Resolver.Find.{Hit, find}
use tenta_cron.Resolver.Fill.{has_name}
use tenta_cron.Plan.{
  PlanTarget, PlanConfig, Problem, unknown_resolvent, Plan, container_path, type_of, node_of,
  types_from, unknown_types, chain_problems, chain_stages, plan_found, check_problems, inspect_root,
  inspect,
}

-- A payload that can be started: its resolvents are all configured, and the stages are their chain.
pub record Startable (cfg : PlanConfig) (t : PlanTarget) (decoded : Option Fields) (p : Plan)
    : Type 0 where
  pub root : Fields
  pub parsed : decoded ≡ some root
  pub located : p.found ≡ find (container_path t) (object root)
  pub configured : All (λ h. is_some (cfg.resolvent (type_of h)) ≡ true) p.found
  pub chained : chain (map node_of p.found) ≡ levels p.stages

-- What the plan says for a target: a proxy's payload passed its check, another's can be started.
pub record Ready (cfg : PlanConfig) (name : String) (check : Option String)
    (decoded : Option Fields) (p : Plan) : Type 0 where
  pub target : PlanTarget
  pub known : cfg.target name ≡ some target
  pub startable : ((target.proxy ≡ true) × (check ≡ none)) ⊎ Startable cfg target decoded p

append_left : (ps qs : List Problem) → ps ++ qs ≡ [] → ps ≡ []
append_left [] qs h = refl
append_left (p ∷ ps) qs h = cc

append_right : (ps qs : List Problem) → ps ++ qs ≡ [] → qs ≡ []
append_right [] qs h = h
append_right (p ∷ ps) qs h = let no : ⊥ = cc in elim no [ ]

module _ (cfg : PlanConfig) where
  abbrev IsKnown : String → Type 0
  IsKnown t = is_some (cfg.resolvent t) ≡ true

  unknown_types-head :
      (t : String) (ts : List String)
      → unknown_types cfg (t ∷ ts) ≡ []
      → IsKnown t × (unknown_types cfg ts ≡ [])
  unfolding unknown_types
  unknown_types-head t ts h = elim (Bool-cases (is_some (cfg.resolvent t))) [
    | inl e ↦ (e, rw e at h)
    | inr e ↦
        let no : unknown_resolvent t ∷ unknown_types cfg ts ≡ [] = rw e at h in
        let never : ⊥ = cc in elim never [ ]
  ]

  types_from-IsKnown :
      (seen : List String) (hs : List Hit)
      → ((k : String) → has_name seen k ≡ true → IsKnown k)
      → unknown_types cfg (types_from seen hs) ≡ []
      → All (λ h. IsKnown (type_of h)) hs
  unfolding types_from has_name
  types_from-IsKnown seen [] s u = tt
  types_from-IsKnown seen (h ∷ hs) s u = elim (Bool-cases (has_name seen (type_of h))) [
    | inl e ↦ (s (type_of h) e, types_from-IsKnown seen hs s (rw e at u))
    | inr e ↦
        let here = unknown_types-head (type_of h) (types_from (type_of h ∷ seen) hs) (rw e at u) in
        (
          here.0,
          types_from-IsKnown (type_of h ∷ seen) hs
              (λ k m. elim (Bool-cases (str_eq (type_of h) k)) [
                | inl q ↦
                    ap (λ x. is_some (cfg.resolvent x)) (sym (str_eq→≡ (type_of h) k q)) ∙ here.0
                | inr q ↦ s k (rw q at m)
              ])
              here.1,
        )
  ]

  chained-levels : (c : Chained) → chain_problems c ≡ [] → c ≡ levels (chain_stages c)
  chained-levels (levels ls) h = refl
  chained-levels (broken x) h = let no : ⊥ = cc in elim no [ ]
  chained-levels unfinished h = let no : ⊥ = cc in elim no [ ]

  inspect_root-Startable :
      (t : PlanTarget) (decoded : Option Fields)
      → (inspect_root cfg t decoded).problems ≡ []
      → Startable cfg t decoded (inspect_root cfg t decoded)
  unfolding plan_found has_name
  inspect_root-Startable t none h = let no : ⊥ = cc in elim no [ ]
  inspect_root-Startable t (some root) h =
      let found : List Hit = find (container_path t) (object root) in
      let unknown = append_left (unknown_types cfg (types_from [] found)) _ h in
      let linked = append_right (unknown_types cfg (types_from [] found)) _ h in
      record {
        root = root;
        parsed = refl;
        located = refl;
        configured = types_from-IsKnown [] found (λ k m. let no : ⊥ = cc in elim no [ ]) unknown;
        chained = chained-levels (chain (map node_of found)) linked;
      }

  check_problems-none : (check : Option String) → check_problems check ≡ [] → check ≡ none
  check_problems-none none h = refl
  check_problems-none (some x) h = let no : ⊥ = cc in elim no [ ]

-- Where `Inspect` reports no problem, the target is configured; the payload of a proxy passed the
-- target's own check; that of another target decodes to an object, every resolvent in its container
-- has a configured type, and the stages are the levels of `Chain`.
pub inspect-Ready :
    (cfg : PlanConfig) (name : String) (check : Option String) (decoded : Option Fields)
    → (inspect cfg name check decoded).problems ≡ []
    → Ready cfg name check decoded (inspect cfg name check decoded)
unfolding inspect
inspect-Ready cfg name check decoded h = elim (Option-cases (cfg.target name)) [
  | inl e ↦ let no : ⊥ = cc (rw e at h) in elim no [ ]
  | inr (t, e) ↦ elim (Bool-cases t.proxy) [
    | inl p ↦ record {
      target = t;
      known = e;
      startable = inl (p, check_problems-none cfg check (rw (e, p) at h));
    }
    | inr p ↦ record {
      target = t;
      known = e;
      startable = inr (simp (e, p) (inspect_root-Startable cfg t decoded (rw (e, p) at h)));
    }
  ]
]
