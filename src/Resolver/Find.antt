-- ===== src/Resolver/Find.antt =====
-- internal/resolver/resolver.go: `Find`, `walk` and `Substitute`. The closure that overwrites a
-- resolvent's slot is the place of the slot in the document. Hashes, the texts of errors and pointers
-- as text are left out.
pub mod Slots
pub mod Splice
use tenta_cron.Prelude.{
  ℕ, zero, suc, ◌+◌, String, str_eq, Bool, true, false, ◌&&◌, not, Option, none, some, List, [],
  ◌∷◌, ◌++◌, map, if◌then◌else◌, is_some,
}
use Prim.Native.String
use Prim.Native.String.{compare}
use text.Mathlib.Text.{is_lt, starts_with}
use tenta_cron.Resolver.Json.{
  Value, null, boolean, number, string, array, object, Items, nil, cons, Fields, end, field,
  field_of, text_field,
}
use tenta_cron.Resolver.Path.{split_dots}

pub data Step : Type 0 where
  key : String → Step
  index : ℕ → Step

-- A found resolvent: its type, its object, its place and its name.
pub data Hit : Type 0 where
  hit : String → Fields → List Step → String → Hit

abbrev is_type : String → Option String → Bool
is_type t none = false
is_type t (some s) = str_eq s t

unfoldable pub is_time_series : Fields → Bool
is_time_series fs = is_type "time-series" (text_field "type" fs)

abbrev pub prefixed : Option String → Option String
prefixed none = none
prefixed (some t) = if starts_with t "resolvent-" then some t else none

-- `resolventType`
unfoldable pub resolvent_type : Fields → Option String
resolvent_type fs = prefixed (text_field "type" fs)

abbrev pub name_or : Option String → String → String
name_or none k = k
name_or (some n) k = if str_eq n "" then k else n

-- `nameOf`
unfoldable pub name_of : Fields → String → String
name_of fs k = name_or (text_field "name" fs) k

abbrev pub under : Step → Hit → Hit
under s (hit kind fs place name) = hit kind fs (s ∷ place) name

-- `report`, where the object is a resolvent; otherwise what is found below it.
abbrev pub hit_or : String → Fields → Option String → List Hit → List Hit
hit_or k fs none below = below
hit_or k fs (some kind) below = hit kind fs [] (name_of fs k) ∷ []

abbrev pub unless : Bool → List Hit → List Hit
unless true hits = []
unless false hits = hits

-- The loops of `walk`; `visit` is one child with the key that it sits under.
unfoldable mutual
  pub visit : String → Value → List Hit
  visit k null = []
  visit k (boolean b) = []
  visit k (number n) = []
  visit k (string s) = []
  visit k (array xs) = visit_items 0 xs
  visit k (object fs) =
      hit_or k fs (resolvent_type fs) (unless (is_time_series fs) (visit_fields fs))

  pub visit_items : ℕ → Items → List Hit
  visit_items i nil = []
  visit_items i (cons x xs) = map (under (index i)) (visit "" x) ++ visit_items (suc i) xs

  pub visit_fields : Fields → List Hit
  visit_fields end = []
  visit_fields (field k v fs) = map (under (key k)) (visit k v) ++ visit_fields fs

-- `walk`: the node itself is not reported.
unfoldable pub walk : Value → List Hit
walk (object fs) = unless (is_time_series fs) (visit_fields fs)
walk v = visit "" v

unfoldable pub prefix_with : List Step → List Hit → List Hit
prefix_with [] hits = hits
prefix_with (s ∷ steps) hits = map (under s) (prefix_with steps hits)

-- What is at a container path, with the key that holds it.
abbrev pub located : String → Option Value → List Hit
located k none = []
located k (some (object fs)) = hit_or k fs (resolvent_type fs) (walk (object fs))
located k (some v) = walk v

abbrev pub step_into : String → Option Value → (Value → List Hit) → List Hit
step_into seg none next = []
step_into seg (some v) next = map (under (key seg)) (next v)

abbrev pub member : Value → String → Option Value
member (object fs) k = field_of k fs
member _ k = none

-- `locateContainer`, segment by segment, and what `Find` makes of the node.
unfoldable pub find_below : List String → Value → List Hit
find_below [] node = walk node
find_below (seg ∷ []) node = map (under (key seg)) (located seg (member node seg))
find_below (seg ∷ seg' ∷ segs) node =
    step_into seg (member node seg) (λ v. find_below (seg' ∷ segs) v)

-- `Find`: an empty path scans the whole document.
unfoldable pub find : String → Value → List Hit
find path root = if str_eq path "" then walk root else find_below (split_dots path) root

-- The closure's effect: the slot at a place is overwritten.
unfoldable mutual
  pub put : List Step → Value → Value → Value
  put [] new v = new
  put (key k ∷ place) new (object fs) = object (put_field k place new fs)
  put (index i ∷ place) new (array xs) = array (put_item i place new xs)
  put (s ∷ place) new v = v

  pub put_field : String → List Step → Value → Fields → Fields
  put_field k place new end = end
  put_field k place new (field j v fs) =
      let here = put place new v in
      let there = put_field k place new fs in
      if str_eq j k then field j here fs else field j v there

  pub put_item : ℕ → List Step → Value → Items → Items
  put_item i place new nil = nil
  put_item zero place new (cons x xs) = cons (put place new x) xs
  put_item (suc i) place new (cons x xs) = cons x (put_item i place new xs)

-- `m[k] = v`
unfoldable pub set_field : String → Value → Fields → Fields
set_field k new end = field k new end
set_field k new (field j v fs) =
    let rest = set_field k new fs in
    if str_eq j k
    then field j new fs
    else (if is_lt (compare k j) then field k new (field j v fs) else field j v rest)

-- The series that overwrites a resolvent: with the resolvent in it where the target takes it.
unfoldable pub marked : Bool → Fields → Fields → Fields
marked attach original series =
    if attach then set_field "resolvent" (object original) series else series

pub data Warning : Type 0 where
  other_type marker_overwritten : Warning

abbrev pub warn_if : Bool → Warning → List Warning
warn_if true w = w ∷ []
warn_if false w = []

-- The warnings of `Substitute`.
unfoldable pub warnings : Bool → Fields → List Warning
warnings attach series =
    warn_if (not (is_time_series series)) other_type
    ++ warn_if (attach && is_some (field_of "resolvent" series)) marker_overwritten

-- `Substitute`, on what the series decodes to: an object, or else an error.
unfoldable pub substitute : Bool → Option Fields → Hit → Value → Option (Value × List Warning)
substitute attach none h root = none
substitute attach (some series) (hit kind fs place name) root =
    some (put place (object (marked attach fs series)) root, warnings attach series)

abbrev pub also_warn : List Warning → Option (Value × List Warning) → Option (Value × List Warning)
also_warn ws none = none
also_warn ws (some (root, more)) = some (root, ws ++ more)

abbrev pub then_substitute :
    Option (Value × List Warning)
    → (Value → Option (Value × List Warning))
    → Option (Value × List Warning)
then_substitute none next = none
then_substitute (some (root, ws)) next = also_warn ws (next root)

-- The loop of `substitute` (internal/worker/process.go); `series` is what each hit's series decodes to.
unfoldable pub substitute_all :
    Bool → (Hit → Option Fields) → List Hit → Value → Option (Value × List Warning)
substitute_all attach series [] root = some (root, [])
substitute_all attach series (h ∷ hs) root =
    then_substitute (substitute attach (series h) h root)
      (λ next. substitute_all attach series hs next)
