-- ===== src/Plan.antt =====
-- internal/plan/plan.go: what a payload contains for a target, and what would fail the job before any
-- call. The payload is what it decodes to; an error of encoding a decoded object is left out.
pub mod Ready
use tenta_cron.Prelude.{
  ℕ, String, str_eq, Bool, true, false, Option, none, some, List, [], ◌∷◌, ◌++◌, map, if◌then◌else◌,
  is_some,
}
use tenta_cron.Resolver.Json.{Value, object, Fields}
use tenta_cron.Resolver.Chain.{Node, ChainError, Chained, levels, broken, unfinished, chain}
use tenta_cron.Resolver.Find.{Hit, hit, find}
use tenta_cron.Resolver.Fill.{has_name}

pub record PlanTarget : Type 0 where
  pub proxy : Bool
  pub timeseries_path : String

-- The configuration by name: the targets, and for each type of resolvent its ignored fields.
pub record PlanConfig : Type 0 where
  pub target : String → Option PlanTarget
  pub resolvent : String → Option (List String)

-- `Problem`: the code with what the message names; `bad_chain` has the code of `invalid_payload`.
pub data Problem : Type 0 where
  unknown_target : String → Problem
  invalid_payload : Problem
  unknown_resolvent : String → Problem
  target_error : String → Problem
  bad_chain : ChainError → Problem

-- `Plan`
pub record Plan : Type 0 where
  pub found : List Hit
  pub stages : List (List ℕ)
  pub problems : List Problem

abbrev pub refused_with : Problem → Plan
refused_with p = record { found = []; stages = []; problems = p ∷ [] }

-- `ContainerPath`: "." is the root.
abbrev pub container_path : PlanTarget → String
container_path t = if str_eq t.timeseries_path "." then "" else t.timeseries_path

abbrev pub type_of : Hit → String
type_of (hit kind fs place name) = kind

abbrev pub node_of : Hit → Node
node_of (hit kind fs place name) = record { name = name; object = fs }

-- The loop of `DistinctTypes` (internal/resolver/resolver.go).
unfoldable pub types_from : List String → List Hit → List String
types_from seen [] = []
types_from seen (h ∷ hs) =
    let fresh = types_from (type_of h ∷ seen) hs in
    let again = types_from seen hs in if has_name seen (type_of h) then again else type_of h ∷ fresh

-- The types that have no configuration.
unfoldable pub unknown_types : PlanConfig → List String → List Problem
unknown_types cfg [] = []
unknown_types cfg (t ∷ ts) =
    let rest = unknown_types cfg ts in
    if is_some (cfg.resolvent t) then rest else unknown_resolvent t ∷ rest

abbrev pub chain_problems : Chained → List Problem
chain_problems (levels ls) = []
chain_problems (broken x) = bad_chain x ∷ []
chain_problems unfinished = invalid_payload ∷ []

abbrev pub chain_stages : Chained → List (List ℕ)
chain_stages (levels ls) = ls
chain_stages (broken x) = []
chain_stages unfinished = []

-- The end of `Inspect`, on the resolvents that were found.
unfoldable pub plan_found : PlanConfig → List Hit → Plan
plan_found cfg found = record {
  found = found;
  stages = chain_stages (chain (map node_of found));
  problems = unknown_types cfg (types_from [] found) ++ chain_problems (chain (map node_of found));
}

abbrev pub check_problems : Option String → List Problem
check_problems none = []
check_problems (some x) = target_error x ∷ []

abbrev pub inspect_root : PlanConfig → PlanTarget → Option Fields → Plan
inspect_root cfg t none = refused_with invalid_payload
inspect_root cfg t (some root) = plan_found cfg (find (container_path t) (object root))

abbrev pub inspect_for :
    PlanConfig → String → Option String → Option Fields → Option PlanTarget → Plan
inspect_for cfg name check root none = refused_with (unknown_target name)
inspect_for cfg name check root (some t) =
    if t.proxy
    then record { found = []; stages = []; problems = check_problems check }
    else inspect_root cfg t root

-- `Inspect`; `check` is the error of `CheckTargetPayload`, and `root` what `Parse` decodes.
unfoldable pub inspect : PlanConfig → String → Option String → Option Fields → Plan
inspect cfg name check root = inspect_for cfg name check root (cfg.target name)
