-- ===== src/Resolver/Path.antt =====
-- internal/resolver/mapping.go, the path expressions: `ParsePath`, `Eval` and `child`. The texts of
-- errors are left out.
use Prim.Native.Char.{Char, code}
use Prim.Native.Nat.{◌-◌}
use mathlib.Core.Option
use tenta_cron.Prelude.{
  ℕ, ◌+◌, ◌*◌, String, str_eq, Bool, true, false, ◌&&◌, Option, none, some, List, [], ◌∷◌,
  if◌then◌else◌, ◌==◌, leb, length, select_where,
}
use tenta_cron.Resolver.Json.{Value, array, object, Items, nil, cons, field_of, item_at}

-- `pathSeg`
pub record PathSeg : Type 0 where
  pub name : String
  pub project : Bool

abbrev pub push_head : Char → List String → List String
push_head c [] = String.◌∷◌ c String.[] ∷ []
push_head c (w ∷ ws) = String.◌∷◌ c w ∷ ws

-- `strings.Split(rest, ".")`
unfoldable pub split_dots : String → List String
split_dots String.[] = "" ∷ []
split_dots (String.◌∷◌ c s) =
    let rest = split_dots s in if code c == b'.' then "" ∷ rest else push_head c rest

-- What is before a suffix `[*]`.
unfoldable pub strip_projection : String → Option String
strip_projection String.[] = none
strip_projection (String.◌∷◌ c s) =
    let rest = strip_projection s in
    if str_eq (String.◌∷◌ c s) "[*]" then some "" else Option.map (String.◌∷◌ c) rest

abbrev pub seg_of : String → Option String → PathSeg
seg_of raw none = record { name = raw; project = false }
seg_of raw (some name) = record { name = name; project = true }

-- The loop of `ParsePath`.
unfoldable pub parse_segs : List String → Option (List PathSeg)
parse_segs [] = some []
parse_segs (raw ∷ raws) =
    let seg = seg_of raw (strip_projection raw) in
    let rest = parse_segs raws in
    if str_eq seg.name "" then none else Option.map (λ segs. seg ∷ segs) rest

abbrev pub one_projection : List PathSeg → Option (List PathSeg)
one_projection segs =
    if leb (length (select_where (λ s. s.project) segs)) 1 then some segs else none

abbrev pub check_segs : Option (List PathSeg) → Option (List PathSeg)
check_segs none = none
check_segs (some segs) = one_projection segs

-- `ParsePath`
unfoldable pub parse_path : String → Option (List PathSeg)
parse_path String.[] = none
parse_path (String.◌∷◌ c rest) =
    if code c == b'.'
    then (if str_eq rest "" then some [] else check_segs (parse_segs (split_dots rest)))
    else none

-- The digits of a number, most significant first.
unfoldable pub digits_from : ℕ → String → Option ℕ
digits_from n String.[] = some n
digits_from n (String.◌∷◌ c s) =
    let rest = digits_from (n * 10 + (code c - 48)) s in
    if leb 48 (code c) && leb (code c) 57 then rest else none

abbrev pub digits : String → Option ℕ
digits String.[] = none
digits (String.◌∷◌ c s) = digits_from 0 (String.◌∷◌ c s)

abbrev pub only_zero : Option ℕ → Option ℕ
only_zero none = none
only_zero (some n) = if n == 0 then some 0 else none

-- `strconv.Atoi` where the result is an index of some array: a number below 0, or too large, is no
-- index.
abbrev pub index_of : String → Option ℕ
index_of String.[] = none
index_of (String.◌∷◌ c s) =
    if code c == b'+'
    then digits s
    else (if code c == b'-' then only_zero (digits s) else digits (String.◌∷◌ c s))

abbrev pub item_of : Items → Option ℕ → Option Value
item_of xs none = none
item_of xs (some i) = item_at i xs

-- `child`
unfoldable pub child : Value → String → Option Value
child (object fs) name = field_of name fs
child (array xs) name = item_of xs (index_of name)
child _ name = none

abbrev pub cons_some : Option Value → Option Items → Option Items
cons_some (some x) (some xs) = some (cons x xs)
cons_some none _ = none
cons_some (some x) none = none

-- The loop over the elements under `[*]`.
unfoldable pub each_item : (Value → Option Value) → Items → Option Items
each_item f nil = some nil
each_item f (cons x xs) = cons_some (f x) (each_item f xs)

abbrev pub project_items : (Value → Option Value) → Option Value → Option Value
project_items f (some (array xs)) = Option.map array (each_item f xs)
project_items f _ = none

abbrev pub go_on : (Value → Option Value) → Option Value → Option Value
go_on f none = none
go_on f (some v) = f v

-- `evalSegs`
unfoldable pub eval_segs : List PathSeg → Value → Option Value
eval_segs [] node = some node
eval_segs (seg ∷ segs) node =
    if seg.project
    then project_items (eval_segs segs) (child node seg.name)
    else go_on (eval_segs segs) (child node seg.name)
