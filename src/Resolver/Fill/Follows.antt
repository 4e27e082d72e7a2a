-- ===== src/Resolver/Fill/Follows.antt =====
-- When `Fill` succeeds.
use tenta_cron.Prelude.{
  ◌≡◌, refl, sym, ◌∙◌, String, Bool, true, false, ◌&&◌, Option, none, some, List, [], ◌∷◌, ◌++◌,
  Option-cases, inl, inr, is_some,
}
use tenta_cron.Resolver.Json.{
  Value, null, boolean, number, string, array, object, Items, nil, cons, Fields, end, field,
  field_of,
}
use tenta_cron.Resolver.Chain.{child_refs, item_refs, field_refs}
use tenta_cron.Resolver.Fill.{
  follow_ref, array_of, object_with, item_and, field_and, fill_child, fill_items, fill_fields,
}

-- Every reference of the list can be followed.
abbrev pub all_follow : (String → Option Value) → List Fields → Bool
all_follow docs [] = true
all_follow docs (ref ∷ refs) = is_some (follow_ref docs ref) && all_follow docs refs

and_assoc : (a b c : Bool) → (a && (b && c)) ≡ ((a && b) && c)
and_assoc true b c = refl
and_assoc false b c = refl

and_true : (b : Bool) → (b && true) ≡ b
and_true true = refl
and_true false = refl

all_follow-append :
    (docs : String → Option Value) (a b : List Fields)
    → all_follow docs (a ++ b) ≡ (all_follow docs a && all_follow docs b)
all_follow-append docs [] b = refl
all_follow-append docs (ref ∷ refs) b =
    rw (all_follow-append docs refs b)
      (and_assoc (is_some (follow_ref docs ref)) (all_follow docs refs) (all_follow docs b))

is_some-item_and :
    (x : Option Value) (xs : Option Items) → is_some (item_and x xs) ≡ (is_some x && is_some xs)
is_some-item_and none xs = refl
is_some-item_and (some x) none = refl
is_some-item_and (some x) (some xs) = refl

is_some-field_and :
    (k : String) (v : Option Value) (fs : Option Fields)
    → is_some (field_and k v fs) ≡ (is_some v && is_some fs)
is_some-field_and k none fs = refl
is_some-field_and k (some v) none = refl
is_some-field_and k (some v) (some fs) = refl

is_some-array_of : (xs : Option Items) → is_some (array_of xs) ≡ is_some xs
is_some-array_of none = refl
is_some-array_of (some xs) = refl

is_some-object_with : (fs : Option Fields) → is_some (object_with fs) ≡ is_some fs
is_some-object_with none = refl
is_some-object_with (some fs) = refl

module _ (docs : String → Option Value) where
  mutual
    unfolding fill_child child_refs

    child-follows : (v : Value) → is_some (fill_child docs v) ≡ all_follow docs (child_refs v)
    child-follows null = refl
    child-follows (boolean b) = refl
    child-follows (number n) = refl
    child-follows (string s) = refl
    child-follows (array xs) = is_some-array_of (fill_items docs xs) ∙ items-follow xs
    child-follows (object fs) = elim (Option-cases (field_of "$from" fs)) [
      | inl e ↦ rw e (is_some-object_with (fill_fields docs fs) ∙ fields-follow fs)
      | inr (from, e) ↦ rw e (sym (and_true (is_some (follow_ref docs fs))))
    ]

    items-follow : (xs : Items) → is_some (fill_items docs xs) ≡ all_follow docs (item_refs xs)
    items-follow nil = refl
    items-follow (cons x xs) =
        is_some-item_and (fill_child docs x) (fill_items docs xs)
        ∙ rw (child-follows x, items-follow xs)
            (sym (all_follow-append docs (child_refs x) (item_refs xs)))

    fields-follow : (fs : Fields) → is_some (fill_fields docs fs) ≡ all_follow docs (field_refs fs)
    fields-follow end = refl
    fields-follow (field k v fs) =
        is_some-field_and k (fill_child docs v) (fill_fields docs fs)
        ∙ rw (child-follows v, fields-follow fs)
            (sym (all_follow-append docs (child_refs v) (field_refs fs)))

  -- `Fill` succeeds exactly when every reference that `Chain` saw in the object can be followed: it
  -- parses, the series that it names is there, and its path leads to a value in that series.
  pub fill_fields-follows :
      (fs : Fields) → is_some (fill_fields docs fs) ≡ all_follow docs (field_refs fs)
  fill_fields-follows fs = fields-follow fs
