-- ===== src/Resolver/Chain.antt =====
-- internal/resolver/chain.go: references between resolvents and the levels they are fetched in. A
-- found resolvent is its number in document order; a message is its kind.
pub mod Outcome
pub mod Ends
pub mod Sound
pub mod Levels
pub mod Accepts
use Prim.Native.Nat.{max}
use Prim.Native.Char.{code}
use Prim.Native.String
use Prim.Native.String.{compare}
use tenta_cron.Prelude.{
  ℕ, zero, suc, ◌+◌, String, str_eq, Bool, true, false, ◌&&◌, ◌||◌, not, Option, none, some, List,
  [], ◌∷◌, ◌++◌, map, if◌then◌else◌, ◌==◌, leb, length,
}
use text.Mathlib.Text.{is_lt}
use tenta_cron.Resolver.Json.{
  Value, null, boolean, number, string, array, object, Items, nil, cons, Fields, end, field,
  field_of, text_field, text_of,
}
use tenta_cron.Resolver.Path.{PathSeg, parse_path}

-- Why `Chain` refuses a payload.
pub data ChainError : Type 0 where
  bad_reference : ChainError
  no_resolvent : String → ChainError
  ambiguous_name : String → ℕ → ChainError
  self_reference : String → ChainError
  cycle : List ℕ → ChainError
  too_deep : ℕ → ChainError

abbrev pub max_chain_depth : ℕ
max_chain_depth = 8

-- An object with `$from` is a reference, and nothing below it is visited.
abbrev pub reference_or : Fields → Option Value → List Fields → List Fields
reference_or fs none below = below
reference_or fs (some v) below = fs ∷ []

-- `walkRefs`: the reference objects below a value, in the order of the visits. `node` is a child.
unfoldable mutual
  pub child_refs : Value → List Fields
  child_refs null = []
  child_refs (boolean b) = []
  child_refs (number n) = []
  child_refs (string s) = []
  child_refs (array xs) = item_refs xs
  child_refs (object fs) = reference_or fs (field_of "$from" fs) (field_refs fs)

  pub item_refs : Items → List Fields
  item_refs nil = []
  item_refs (cons x xs) = child_refs x ++ item_refs xs

  pub field_refs : Fields → List Fields
  field_refs end = []
  field_refs (field k v fs) = child_refs v ++ field_refs fs

abbrev pub dotted : String → String
dotted String.[] = "."
dotted (String.◌∷◌ c s) =
    if code c == b'.' then String.◌∷◌ c s else String.◌++◌ "." (String.◌∷◌ c s)

-- The `path` of a reference, with its leading dot.
abbrev pub path_text : Option Value → Option String
path_text none = some "."
path_text (some (string s)) = some (dotted s)
path_text (some _) = none

unfoldable pub only_ref_keys : Fields → Bool
only_ref_keys end = true
only_ref_keys (field k v fs) = (str_eq k "$from" || str_eq k "path") && only_ref_keys fs

abbrev pub parsed_ref : String → Option (List PathSeg) → Option (String × List PathSeg)
parsed_ref from none = none
parsed_ref from (some path) = some (from, path)

abbrev pub ref_with : Fields → String → Option String → Option (String × List PathSeg)
ref_with fs from none = none
ref_with fs from (some expr) = if only_ref_keys fs then parsed_ref from (parse_path expr) else none

abbrev pub ref_from : Fields → Option String → Option (String × List PathSeg)
ref_from fs none = none
ref_from fs (some from) =
    if str_eq from "" then none else ref_with fs from (path_text (field_of "path" fs))

-- `parseRef`
unfoldable pub parse_ref : Fields → Option (String × List PathSeg)
parse_ref fs = ref_from fs (text_field "$from" fs)

-- A found resolvent as `Chain` reads it: its name and its object.
pub record Node : Type 0 where
  pub name : String
  pub object : Fields

-- `byName[from]`: the numbers of the resolvents with this name.
unfoldable pub named_from : ℕ → String → List Node → List ℕ
named_from i from [] = []
named_from i from (f ∷ fs) =
    let rest = named_from (suc i) from fs in
    if not (str_eq f.name "") && str_eq f.name from then i ∷ rest else rest

pub data Bound : Type 0 where
  bound : ℕ → Bound
  refused : ChainError → Bound

-- `bind`
abbrev pub bind_to : ℕ → String → List ℕ → Bound
bind_to f from [] = refused (no_resolvent from)
bind_to f from (g ∷ []) = if g == f then refused (self_reference from) else bound g
bind_to f from (g ∷ h ∷ more) = refused (ambiguous_name from (suc (suc (length more))))

-- `f.deps[from] = g`, with the names in sorted order.
unfoldable pub insert_dep : String → ℕ → List (String × ℕ) → List (String × ℕ)
insert_dep from g [] = (from, g) ∷ []
insert_dep from g ((k, h) ∷ ds) =
    let rest = insert_dep from g ds in
    if str_eq from k
    then (from, g) ∷ ds
    else (if is_lt (compare from k) then (from, g) ∷ (k, h) ∷ ds else (k, h) ∷ rest)

-- What a step of `Chain` returns.
pub data Checked {ℓ} (A : Type ℓ) : Type ℓ where
  checked : A → Checked A
  rejected : ChainError → Checked A

abbrev pub then_check {ℓ ℓ'} : {A : Type ℓ} {B : Type ℓ'} → Checked A → (A → Checked B) → Checked B
then_check (checked a) f = f a
then_check (rejected x) f = rejected x

abbrev pub record_dep : String → Bound → List (String × ℕ) → Checked (List (String × ℕ))
record_dep from (bound g) ds = checked (insert_dep from g ds)
record_dep from (refused x) ds = rejected x

abbrev pub bind_parsed :
    List Node → ℕ → Option (String × List PathSeg) → List (String × ℕ) → Checked (List (String × ℕ))
bind_parsed nodes f none ds = rejected bad_reference
bind_parsed nodes f (some (from, path)) ds =
    record_dep from (bind_to f from (named_from 0 from nodes)) ds

-- The references of resolvent `f`, one after another.
unfoldable pub bind_refs :
    List Node → ℕ → List Fields → List (String × ℕ) → Checked (List (String × ℕ))
bind_refs nodes f [] ds = checked ds
bind_refs nodes f (ref ∷ refs) ds =
    then_check (bind_parsed nodes f (parse_ref ref) ds) (λ next. bind_refs nodes f refs next)

-- The first loop of `Chain`: what each resolvent depends on.
unfoldable pub bind_from : List Node → ℕ → List Node → Checked (List (List ℕ))
bind_from nodes f [] = checked []
bind_from nodes f (n ∷ ns) =
    then_check (bind_refs nodes f (field_refs n.object) [])
      (λ ds. then_check (bind_from nodes (suc f) ns) (λ rest. checked (map (λ d. d.1) ds ∷ rest)))

-- `depth[f]`
unfoldable pub depth_of : ℕ → List (ℕ × ℕ) → Option ℕ
depth_of f [] = none
depth_of f ((g, d) ∷ ds) = if g == f then some d else depth_of f ds

unfoldable pub is_among : ℕ → List ℕ → Bool
is_among f [] = false
is_among f (g ∷ gs) = g == f || is_among f gs

unfoldable pub deps_of : ℕ → List (List ℕ) → List ℕ
deps_of f [] = []
deps_of zero (ds ∷ dss) = ds
deps_of (suc f) (ds ∷ dss) = deps_of f dss

-- What `level` returns: a depth with the depths known so far, or an error; or the fuel is used up.
pub data Leveled : Type 0 where
  leveled : ℕ → List (ℕ × ℕ) → Leveled
  unleveled : ChainError → Leveled
  out_of_fuel : Leveled

abbrev pub then_level : Leveled → (ℕ → List (ℕ × ℕ) → Leveled) → Leveled
then_level (leveled d ds) f = f d ds
then_level (unleveled x) f = unleveled x
then_level out_of_fuel f = out_of_fuel

-- The loop of `level` over the dependencies; `visit` is the recursive call.
unfoldable pub level_deps : (ℕ → List (ℕ × ℕ) → Leveled) → List ℕ → ℕ → List (ℕ × ℕ) → Leveled
level_deps visit [] d ds = leveled d ds
level_deps visit (g ∷ gs) d ds =
    then_level (visit g ds) (λ dd next. level_deps visit gs (max d (dd + 1)) next)

-- The end of `level`: the depth is bounded, and then known.
abbrev pub settle_level : ℕ → ℕ → List (ℕ × ℕ) → Leveled
settle_level f d ds =
    if leb max_chain_depth d then unleveled (too_deep f) else leveled d ((f, d) ∷ ds)

abbrev pub known_or : Option ℕ → List (ℕ × ℕ) → Leveled → Leveled
known_or (some d) ds new = leveled d ds
known_or none ds new = new

-- `level`; `trail` is the chain that is followed, with its end at the head, and so what is visiting.
unfoldable pub level : ℕ → List (List ℕ) → List ℕ → ℕ → List (ℕ × ℕ) → Leveled
level zero dss trail f ds = out_of_fuel
level (suc fuel) dss trail f ds = known_or (depth_of f ds) ds (
    if is_among f trail
    then unleveled (cycle (f ∷ trail))
    else then_level (level_deps (level fuel dss (f ∷ trail)) (deps_of f dss) 0 ds) (settle_level f))

-- The second loop of `Chain`, over the resolvents from `f` on.
unfoldable pub level_all : ℕ → List (List ℕ) → ℕ → List (List ℕ) → List (ℕ × ℕ) → Leveled
level_all fuel dss f [] ds = leveled 0 ds
level_all fuel dss f (_ ∷ rest) ds =
    then_level (level fuel dss [] f ds) (λ d next. level_all fuel dss (suc f) rest next)

-- `levels[d] = append(levels[d], f)`, on levels that are extended up to `d`.
unfoldable pub place_level : ℕ → ℕ → List (List ℕ) → List (List ℕ)
place_level zero f [] = (f ∷ []) ∷ []
place_level zero f (l ∷ ls) = (l ++ f ∷ []) ∷ ls
place_level (suc d) f [] = [] ∷ place_level d f []
place_level (suc d) f (l ∷ ls) = l ∷ place_level d f ls

abbrev pub place_known : Option ℕ → ℕ → List (List ℕ) → List (List ℕ)
place_known none f ls = place_level 0 f ls
place_known (some d) f ls = place_level d f ls

-- The third loop of `Chain`.
unfoldable pub group_from : List (ℕ × ℕ) → ℕ → List (List ℕ) → List (List ℕ) → List (List ℕ)
group_from ds f [] ls = ls
group_from ds f (_ ∷ rest) ls = group_from ds (suc f) rest (place_known (depth_of f ds) f ls)

-- What `Chain` returns: the levels.
pub data Chained : Type 0 where
  levels : List (List ℕ) → Chained
  broken : ChainError → Chained
  unfinished : Chained

abbrev pub grouped : List (List ℕ) → Leveled → Chained
grouped dss (leveled d ds) = levels (group_from ds 0 dss [])
grouped dss (unleveled x) = broken x
grouped dss out_of_fuel = unfinished

abbrev pub chain_bound : Checked (List (List ℕ)) → Chained
chain_bound (rejected x) = broken x
chain_bound (checked dss) = grouped dss (level_all (suc (length dss)) dss 0 dss [])

-- `Chain`
unfoldable pub chain : List Node → Chained
chain nodes = chain_bound (bind_from nodes 0 nodes)
