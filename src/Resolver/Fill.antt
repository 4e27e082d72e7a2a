-- ===== src/Resolver/Fill.antt =====
-- internal/resolver/chain.go, `Fill`, and internal/resolver/hash.go, `Rehash` up to the digest. A
-- filled input is a new value, as the deep copy makes it.
pub mod Follows
use tenta_cron.Prelude.{
  String, str_eq, Bool, true, false, Option, none, some, List, [], ◌∷◌, if◌then◌else◌,
}
use tenta_cron.Resolver.Json.{
  Value, null, boolean, number, string, array, object, Items, nil, cons, Fields, end, field,
  field_of,
}
use tenta_cron.Resolver.Path.{PathSeg, eval_segs}
use tenta_cron.Resolver.Chain.{parse_ref}

abbrev pub eval_in : Option Value → List PathSeg → Option Value
eval_in none path = none
eval_in (some doc) path = eval_segs path doc

abbrev pub follow_parsed : (String → Option Value) → Option (String × List PathSeg) → Option Value
follow_parsed docs none = none
follow_parsed docs (some (from, path)) = eval_in (docs from) path

-- The value that a reference points to; `docs` is the decoded series of the resolvent of a name.
unfoldable pub follow_ref : (String → Option Value) → Fields → Option Value
follow_ref docs ref = follow_parsed docs (parse_ref ref)

abbrev pub array_of : Option Items → Option Value
array_of none = none
array_of (some xs) = some (array xs)

abbrev pub object_with : Option Fields → Option Value
object_with none = none
object_with (some fs) = some (object fs)

abbrev pub item_and : Option Value → Option Items → Option Items
item_and none xs = none
item_and (some x) none = none
item_and (some x) (some xs) = some (cons x xs)

abbrev pub field_and : String → Option Value → Option Fields → Option Fields
field_and k none fs = none
field_and k (some v) none = none
field_and k (some v) (some fs) = some (field k v fs)

-- A child that is a reference is overwritten, and any other is searched.
abbrev pub overwrite_or : Option Value → Option Value → Option Value → Option Value
overwrite_or none new below = below
overwrite_or (some from) new below = new

unfoldable mutual
  pub fill_child : (String → Option Value) → Value → Option Value
  fill_child docs null = some null
  fill_child docs (boolean b) = some (boolean b)
  fill_child docs (number n) = some (number n)
  fill_child docs (string s) = some (string s)
  fill_child docs (array xs) = array_of (fill_items docs xs)
  fill_child docs (object fs) =
      overwrite_or (field_of "$from" fs) (follow_ref docs fs) (object_with (fill_fields docs fs))

  pub fill_items : (String → Option Value) → Items → Option Items
  fill_items docs nil = some nil
  fill_items docs (cons x xs) = item_and (fill_child docs x) (fill_items docs xs)

  pub fill_fields : (String → Option Value) → Fields → Option Fields
  fill_fields docs end = some end
  fill_fields docs (field k v fs) = field_and k (fill_child docs v) (fill_fields docs fs)

-- What `Fill` makes of a resolvent: nothing to fill, the new input, or an error.
pub data Filled : Type 0 where
  untouched unfillable : Filled
  filled : Fields → Filled

abbrev pub filled_as : Option Fields → Filled
filled_as none = unfillable
filled_as (some fs) = filled fs

-- `Fill`, where `is_free` says that no dependency was bound.
unfoldable pub fill : Bool → (String → Option Value) → Fields → Filled
fill is_free docs fs = if is_free then untouched else filled_as (fill_fields docs fs)

unfoldable pub has_name : List String → String → Bool
has_name [] k = false
has_name (j ∷ js) k = if str_eq j k then true else has_name js k

-- The input that `Rehash` digests: without the ignored fields.
unfoldable pub trimmed : List String → Fields → Fields
trimmed ignore end = end
trimmed ignore (field k v fs) =
    let rest = trimmed ignore fs in if has_name ignore k then rest else field k v rest
