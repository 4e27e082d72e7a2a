-- ===== src/Resolver/Find/Slots.antt =====
-- Overwriting the slots that `walk` found, against a replacement in one pass.
use tenta_cron.Prelude.{
  ℕ, suc, ◌≡◌, refl, sym, ◌∙◌, ap, String, str_eq, str_eq_refl, str_eq-swap, Bool, true, false,
  Option, none, some, List, [], ◌∷◌, ◌++◌, map, Bool-cases, Option-cases, inl, inr, All,
}
use tenta_cron.Resolver.Json.{
  Value, null, boolean, number, string, array, object, Items, nil, cons, Fields, end, field,
  field_of,
}
use tenta_cron.Resolver.Find.{
  Step, key, index, Hit, hit, is_time_series, resolvent_type, under, visit, visit_items,
  visit_fields, walk, put, put_field, put_item,
}

abbrev pub pick_value : Option String → Value → Value → Value
pick_value none new old = old
pick_value (some kind) new old = new

abbrev pub keep_series : Bool → Fields → Fields → Value
keep_series true fs new = object fs
keep_series false fs new = object new

-- The reference: every resolvent that is not inside a resolvent or a time series is replaced by what
-- `F` makes of it, and all else stays.
unfoldable mutual
  pub replace : (Fields → Value) → Value → Value
  replace F null = null
  replace F (boolean b) = boolean b
  replace F (number n) = number n
  replace F (string s) = string s
  replace F (array xs) = array (replace_items F xs)
  replace F (object fs) =
      pick_value (resolvent_type fs) (F fs)
        (keep_series (is_time_series fs) fs (replace_fields F fs))

  pub replace_items : (Fields → Value) → Items → Items
  replace_items F nil = nil
  replace_items F (cons x xs) = cons (replace F x) (replace_items F xs)

  pub replace_fields : (Fields → Value) → Fields → Fields
  replace_fields F end = end
  replace_fields F (field k v fs) = field k (replace F v) (replace_fields F fs)

-- The same from the document's root, which is itself no slot.
unfoldable pub replace_root : (Fields → Value) → Value → Value
replace_root F (object fs) = keep_series (is_time_series fs) fs (replace_fields F fs)
replace_root F v = replace F v

-- In every object each key stands once, as it does in a decoded object.
unfoldable mutual
  pub OneKey : Value → Type 0
  OneKey null = Unit
  OneKey (boolean b) = Unit
  OneKey (number n) = Unit
  OneKey (string s) = Unit
  OneKey (array xs) = OneKeyItems xs
  OneKey (object fs) = OneKeyFields fs

  pub OneKeyItems : Items → Type 0
  OneKeyItems nil = Unit
  OneKeyItems (cons x xs) = OneKey x × OneKeyItems xs

  pub OneKeyFields : Fields → Type 0
  OneKeyFields end = Unit
  OneKeyFields (field k v fs) = (field_of k fs ≡ none) × OneKey v × OneKeyFields fs

-- One slot after another.
abbrev pub new_value : (Fields → Value) → Hit → Value
new_value F (hit kind fs place name) = F fs

abbrev pub place_of : Hit → List Step
place_of (hit kind fs place name) = place

unfoldable pub put_all : (Fields → Value) → List Hit → Value → Value
put_all F [] v = v
put_all F (h ∷ hs) v = put_all F hs (put (place_of h) (new_value F h) v)

-- The slot is below another key, or below an item that is not the first.
abbrev Elsewhere : String → Hit → Type 0
Elsewhere k (hit kind fs [] name) = ⊥
Elsewhere k (hit kind fs (index i ∷ place) name) = ⊥
Elsewhere k (hit kind fs (key j ∷ place) name) = str_eq k j ≡ false

module _ (F : Fields → Value) where
  put_all-append :
      (hs gs : List Hit) (v : Value) → put_all F (hs ++ gs) v ≡ put_all F gs (put_all F hs v)
  unfolding put_all
  put_all-append [] gs v = refl
  put_all-append (h ∷ hs) gs v = put_all-append hs gs _

  put_field-head :
      (k : String) (place : List Step) (new v : Value) (fs : Fields)
      → put_field k place new (field k v fs) ≡ field k (put place new v) fs
  unfolding put_field
  put_field-head k place new v fs = rw (str_eq_refl k) refl

  put_field-skip :
      (k j : String) (place : List Step) (new v : Value) (fs : Fields)
      → str_eq k j ≡ false
      → put_field j place new (field k v fs) ≡ field k v (put_field j place new fs)
  unfolding put_field
  put_field-skip k j place new v fs e = rw e refl

  put_all-under_key :
      (k : String) (hs : List Hit) (v : Value) (fs : Fields)
      → put_all F (map (under (key k)) hs) (object (field k v fs))
        ≡ object (field k (put_all F hs v) fs)
  unfolding put_all put
  put_all-under_key k [] v fs = refl
  put_all-under_key k (hit kind o place name ∷ hs) v fs =
      ap (λ x. put_all F (map (under (key k)) hs) (object x)) (put_field-head k place (F o) v fs)
      ∙ put_all-under_key k hs (put place (F o) v) fs

  put_all-Elsewhere :
      (k : String) (hs : List Hit) (v : Value) (fs gs : Fields)
      → All (Elsewhere k) hs
      → put_all F hs (object fs) ≡ object gs
      → put_all F hs (object (field k v fs)) ≡ object (field k v gs)
  unfolding put_all put
  put_all-Elsewhere k [] v fs gs a e = let same : object fs ≡ object gs = e in cc
  put_all-Elsewhere k (hit kind o [] name ∷ hs) v fs gs a e = elim (a.0) [ ]
  put_all-Elsewhere k (hit kind o (index i ∷ place) name ∷ hs) v fs gs a e = elim (a.0) [ ]
  put_all-Elsewhere k (hit kind o (key j ∷ place) name ∷ hs) v fs gs a e =
      ap (λ x. put_all F hs (object x)) (put_field-skip k j place (F o) v fs a.0)
      ∙ put_all-Elsewhere k hs v (put_field j place (F o) fs) gs a.1 e

  put_all-under_index :
      (hs : List Hit) (x : Value) (xs : Items)
      → put_all F (map (under (index 0)) hs) (array (cons x xs)) ≡ array (cons (put_all F hs x) xs)
  unfolding put_all put
  put_all-under_index [] x xs = refl
  put_all-under_index (hit kind o place name ∷ hs) x xs =
      put_all-under_index hs (put place (F o) x) xs

-- The slots of the items one place further on.
abbrev bump : Hit → Hit
bump (hit kind o [] name) = hit kind o [] name
bump (hit kind o (key k ∷ place) name) = hit kind o (key k ∷ place) name
bump (hit kind o (index i ∷ place) name) = hit kind o (index (suc i) ∷ place) name

abbrev IsItem : Hit → Type 0
IsItem (hit kind o [] name) = ⊥
IsItem (hit kind o (key k ∷ place) name) = ⊥
IsItem (hit kind o (index i ∷ place) name) = Unit

bump-under :
    (i : ℕ) (hs : List Hit) → map bump (map (under (index i)) hs) ≡ map (under (index (suc i))) hs
bump-under i [] = refl
bump-under i (hit kind o place name ∷ hs) = rw (bump-under i hs) refl

map-append : (f : Hit → Hit) (hs gs : List Hit) → map f (hs ++ gs) ≡ map f hs ++ map f gs
map-append f [] gs = refl
map-append f (h ∷ hs) gs = rw (map-append f hs gs) refl

bump-visit_items : (i : ℕ) (xs : Items) → map bump (visit_items i xs) ≡ visit_items (suc i) xs
unfolding visit
bump-visit_items i nil = refl
bump-visit_items i (cons x xs) =
    map-append bump (map (under (index i)) (visit "" x)) (visit_items (suc i) xs)
    ∙ rw (bump-under i (visit "" x), bump-visit_items (suc i) xs) refl

All-append : (P : Hit → Type 0) (hs gs : List Hit) → All P hs → All P gs → All P (hs ++ gs)
All-append P [] gs a b = b
All-append P (h ∷ hs) gs a b = (a.0, All-append P hs gs a.1 b)

under_index-IsItem : (i : ℕ) (hs : List Hit) → All IsItem (map (under (index i)) hs)
under_index-IsItem i [] = tt
under_index-IsItem i (hit kind o place name ∷ hs) = (tt, under_index-IsItem i hs)

visit_items-IsItem : (i : ℕ) (xs : Items) → All IsItem (visit_items i xs)
unfolding visit
visit_items-IsItem i nil = tt
visit_items-IsItem i (cons x xs) =
    All-append IsItem _ _ (under_index-IsItem i (visit "" x)) (visit_items-IsItem (suc i) xs)

under_key-Elsewhere :
    (k j : String) (hs : List Hit) → str_eq k j ≡ false → All (Elsewhere k) (map (under (key j)) hs)
under_key-Elsewhere k j [] e = tt
under_key-Elsewhere k j (hit kind o place name ∷ hs) e = (e, under_key-Elsewhere k j hs e)

visit_fields-Elsewhere :
    (k : String) (fs : Fields) → field_of k fs ≡ none → All (Elsewhere k) (visit_fields fs)
unfolding visit field_of
visit_fields-Elsewhere k end e = tt
visit_fields-Elsewhere k (field j v fs) e = elim (Bool-cases (str_eq j k)) [
  | inl q ↦ let no : some v ≡ none = rw q at e in let never : ⊥ = cc in elim never [ ]
  | inr q ↦
      All-append (Elsewhere k) _ _ (under_key-Elsewhere k j (visit j v) (str_eq-swap j k q))
        (visit_fields-Elsewhere k fs (rw q at e))
]

module _ (F : Fields → Value) where
  put_all-bump :
      (hs : List Hit) (x : Value) (xs ys : Items)
      → All IsItem hs
      → put_all F hs (array xs) ≡ array ys
      → put_all F (map bump hs) (array (cons x xs)) ≡ array (cons x ys)
  unfolding put_all put
  put_all-bump [] x xs ys a e = let same : array xs ≡ array ys = e in cc
  put_all-bump (hit kind o [] name ∷ hs) x xs ys a e = elim (a.0) [ ]
  put_all-bump (hit kind o (key k ∷ place) name ∷ hs) x xs ys a e = elim (a.0) [ ]
  put_all-bump (hit kind o (index i ∷ place) name ∷ hs) x xs ys a e =
      put_all-bump hs x (put_item i place (F o) xs) ys a.1 e

  mutual
    unfolding visit replace put_all put OneKey

    put_all-visit : (k : String) (v : Value) → OneKey v → put_all F (visit k v) v ≡ replace F v
    put_all-visit k null w = refl
    put_all-visit k (boolean b) w = refl
    put_all-visit k (number n) w = refl
    put_all-visit k (string s) w = refl
    put_all-visit k (array xs) w = put_all-visit_items xs w
    put_all-visit k (object fs) w = elim (Option-cases (resolvent_type fs)) [
      | inr (kind, e) ↦ rw e refl
      | inl e ↦ elim (Bool-cases (is_time_series fs)) [
        | inl t ↦ rw (e, t) refl
        | inr t ↦ rw (e, t) (put_all-visit_fields fs w)
      ]
    ]

    put_all-visit_items :
        (xs : Items)
        → OneKeyItems xs
        → put_all F (visit_items 0 xs) (array xs) ≡ array (replace_items F xs)
    put_all-visit_items nil w = refl
    put_all-visit_items (cons x xs) w =
        put_all-append F (map (under (index 0)) (visit "" x)) (visit_items 1 xs) (array (cons x xs))
        ∙ ap (put_all F (visit_items 1 xs)) (
            put_all-under_index F (visit "" x) x xs
            ∙ ap (λ y. array (cons y xs)) (put_all-visit "" x w.0))
        ∙ ap (λ hs. put_all F hs (array (cons (replace F x) xs))) (sym (bump-visit_items 0 xs))
        ∙ put_all-bump (visit_items 0 xs) (replace F x) xs (replace_items F xs)
            (visit_items-IsItem 0 xs) (put_all-visit_items xs w.1)

    put_all-visit_fields :
        (fs : Fields)
        → OneKeyFields fs
        → put_all F (visit_fields fs) (object fs) ≡ object (replace_fields F fs)
    put_all-visit_fields end w = refl
    put_all-visit_fields (field k v fs) w =
        put_all-append F (map (under (key k)) (visit k v)) (visit_fields fs) (object (field k v fs))
        ∙ ap (put_all F (visit_fields fs)) (
            put_all-under_key F k (visit k v) v fs
            ∙ ap (λ x. object (field k x fs)) (put_all-visit k v w.1))
        ∙ put_all-Elsewhere F k (visit_fields fs) (replace F v) fs (replace_fields F fs)
            (visit_fields-Elsewhere k fs w.0) (put_all-visit_fields fs w.2)

  -- From the root.
  pub put_all-walk : (v : Value) → OneKey v → put_all F (walk v) v ≡ replace_root F v
  unfolding walk replace_root put_all OneKey
  put_all-walk null w = put_all-visit "" null w
  put_all-walk (boolean b) w = put_all-visit "" (boolean b) w
  put_all-walk (number n) w = put_all-visit "" (number n) w
  put_all-walk (string s) w = put_all-visit "" (string s) w
  put_all-walk (array xs) w = put_all-visit "" (array xs) w
  put_all-walk (object fs) w = elim (Bool-cases (is_time_series fs)) [
    | inl t ↦ rw t refl
    | inr t ↦ rw t (put_all-visit_fields fs w)
  ]
