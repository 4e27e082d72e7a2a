-- ===== src/Examples/Payloads.antt =====
-- Payloads with resolvents at concrete inputs.
use tenta_cron.Resolver.Find.{find, find_below, resolvent_type, visit_fields, name_of}
use tenta_cron.Prelude.{String, none}
use tenta_cron.Prelude.{
  ℕ, ◌≡◌, ◌≢◌, ◌↔◌, refl, true, false, Option, some, List, [], ◌∷◌, str_eq, if◌then◌else◌, is_some,
  select_where,
}
use tenta_cron.Resolver.Json.{
  Value, number, string, array, object, nil, cons, Fields, end, field, field_of,
}
use tenta_cron.Resolver.Path.{parse_path, parse_segs, split_dots, strip_projection}
use tenta_cron.Resolver.Chain.{
  Node, checked, levels, unfinished, bind_from, chain, bind_refs, field_refs, parse_ref,
  only_ref_keys, named_from, insert_dep, level_all, level, depth_of, is_among, deps_of, group_from,
  level_deps, place_level,
}
use tenta_cron.Resolver.Chain.Ends.{chain-ends}
use tenta_cron.Resolver.Chain.Levels.{Fit, chain-Fit}
use tenta_cron.Resolver.Chain.Accepts.{Ranking, chain-accepts}
use tenta_cron.Resolver.Fill.{fill_fields, has_name}
use tenta_cron.Resolver.Fill.Follows.{all_follow, fill_fields-follows}
use tenta_cron.Plan.{PlanConfig, inspect, plan_found, types_from, unknown_types}
use tenta_cron.Plan.Ready.{Ready, inspect-Ready}
use tenta_cron.Resolver.Find.{Hit, Warning, is_time_series, walk, substitute_all}
use tenta_cron.Resolver.Find.Slots.{OneKey, replace_root}
use tenta_cron.Resolver.Find.Splice.{
  object_of, spliced, substitute_all-replace, substitute_all-walk,
}

-- `heat` takes its area from `building`.
abbrev from_building : Value
from_building = object (field "$from" (string "building") (field "path" (string "area") end))

abbrev heat : Fields
heat = field "area" from_building (field "type" (string "resolvent-heat") end)

abbrev building : Fields
building = field "type" (string "resolvent-building") end

abbrev nodes : List Node
nodes =
    record { name = "heat"; object = heat } ∷ record { name = "building"; object = building } ∷ []

abbrev depends : List (List ℕ)
depends = (1 ∷ []) ∷ [] ∷ []

nodes_bound : bind_from nodes 0 nodes ≡ checked depends
unfolding bind_from bind_refs field_refs field_of parse_ref only_ref_keys parse_path parse_segs
    split_dots strip_projection select_where named_from insert_dep
nodes_bound = refl

nodes-chain : chain nodes ≡ levels ((1 ∷ []) ∷ (0 ∷ []) ∷ [])
unfolding chain bind_from bind_refs field_refs field_of parse_ref only_ref_keys parse_path
    parse_segs split_dots strip_projection select_where named_from insert_dep level_all level
    depth_of is_among deps_of group_from level_deps place_level
nodes-chain = refl

chain-ends_example : chain nodes ≢ unfinished
chain-ends_example = chain-ends nodes

chain-Fit_example : Fit depends ((1 ∷ []) ∷ (0 ∷ []) ∷ [])
chain-Fit_example = chain-Fit nodes depends ((1 ∷ []) ∷ (0 ∷ []) ∷ []) nodes_bound nodes-chain

chain-accepts_example : ((ls : List (List ℕ)) × (chain nodes ≡ levels ls)) ↔ Ranking depends
chain-accepts_example = chain-accepts nodes depends nodes_bound

abbrev payload : Value
payload = object (
    field "model" (array (cons (object building) (cons (number "3") nil)))
      (field "series" (object (field "heat" (object heat) end)) end))

abbrev answer : Fields → Fields
answer fs = field "data" (array nil) (field "type" (string "time-series") end)

abbrev series : Hit → Option Fields
series h = some (answer (object_of h))

payload-OneKey : OneKey payload
unfolding OneKey field_of
payload-OneKey = (
  refl,
  ((refl, tt, tt), (tt, tt)),
  (refl, (refl, (refl, (refl, tt, (refl, tt, tt)), (refl, tt, tt)), tt), tt),
)

substitute_all-replace_example :
    (ws : List Warning) × (substitute_all true series (walk payload) payload
      ≡ some (replace_root (spliced true answer) payload, ws))
substitute_all-replace_example =
    substitute_all-replace true series answer payload payload-OneKey (λ h. refl)

substitute_all-walk_example :
    (new_root : Value) × (ws : List Warning) × (substitute_all false series (walk payload) payload
      ≡ some (new_root, ws))
    × (walk new_root ≡ [])
unfolding is_time_series field_of
substitute_all-walk_example =
    substitute_all-walk false series answer payload payload-OneKey (λ h. refl) (λ fs. refl)

abbrev series_docs : String → Option Value
series_docs name =
    if str_eq name "building" then some (object (field "area" (number "120") end)) else none

fill_fields-follows_example :
    is_some (fill_fields series_docs heat) ≡ all_follow series_docs (field_refs heat)
fill_fields-follows_example = fill_fields-follows series_docs heat

abbrev plan_config : PlanConfig
plan_config = record {
  target = λ name. some (record { proxy = false; timeseries_path = "series" });
  resolvent = λ kind. some ("name" ∷ []);
}

abbrev root : Fields
root =
    field "series" (object (field "building" (object building) (field "heat" (object heat) end)))
      end

plan_clean : (inspect plan_config "sim" none (some root)).problems ≡ []
unfolding chain bind_from bind_refs field_refs field_of parse_ref only_ref_keys parse_path
    parse_segs split_dots strip_projection select_where named_from insert_dep level_all level
    depth_of is_among deps_of group_from level_deps place_level inspect plan_found unknown_types
    types_from find find_below resolvent_type walk is_time_series visit_fields has_name name_of
plan_clean = refl

inspect-Ready_example :
    Ready plan_config "sim" none (some root) (inspect plan_config "sim" none (some root))
inspect-Ready_example = inspect-Ready plan_config "sim" none (some root) plan_clean
