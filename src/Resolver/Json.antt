-- ===== src/Resolver/Json.antt =====
-- Decoded JSON (Go's `any` with `json.Number`). An object lists its keys in sorted order, each once,
-- which is the order in which the code visits them. A number is its text.
use tenta_cron.Prelude.{ℕ, zero, suc, String, str_eq, Bool, Option, none, some, if◌then◌else◌}

mutual
  pub data Value : Type 0 where
    null : Value
    boolean : Bool → Value
    number string : String → Value
    array : Items → Value
    object : Fields → Value

  pub data Items : Type 0 where
    nil : Items
    cons : Value → Items → Items

  pub data Fields : Type 0 where
    end : Fields
    field : String → Value → Fields → Fields

-- `m[k]`
unfoldable pub field_of : String → Fields → Option Value
field_of k end = none
field_of k (field j v fs) = if str_eq j k then some v else field_of k fs

abbrev pub text_of : Option Value → Option String
text_of (some (string s)) = some s
text_of _ = none

-- `m[k].(string)`
abbrev pub text_field : String → Fields → Option String
text_field k fs = text_of (field_of k fs)

unfoldable pub item_at : ℕ → Items → Option Value
item_at i nil = none
item_at zero (cons x xs) = some x
item_at (suc i) (cons x xs) = item_at i xs

unfoldable pub count_items : Items → ℕ
count_items nil = 0
count_items (cons x xs) = suc (count_items xs)
