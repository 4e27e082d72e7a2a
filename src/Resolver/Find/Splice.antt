-- ===== src/Resolver/Find/Splice.antt =====
-- The loop of `substitute` over all that `Find` located, and what it leaves.
use tenta_cron.Prelude.{
  ℕ, suc, ◌≡◌, refl, ◌∙◌, ap, String, str_eq, str_eq→≡, Bool, true, false, Option, none, some, List,
  [], ◌∷◌, ◌++◌, Bool-cases, Option-cases, inl, inr,
}
use Prim.Native.String.{compare}
use text.Mathlib.Text.{is_lt}
use tenta_cron.Resolver.Json.{
  Value, null, boolean, number, string, array, object, Items, nil, cons, Fields, end, field,
  field_of, text_of, text_field,
}
use tenta_cron.Resolver.Find.{
  Hit, hit, is_time_series, resolvent_type, visit, visit_items, visit_fields, walk, put, set_field,
  marked, Warning, warnings, substitute, also_warn, substitute_all,
}
use tenta_cron.Resolver.Find.Slots.{
  replace, replace_items, replace_fields, replace_root, OneKey, put_all, put_all-walk,
}

abbrev pub object_of : Hit → Fields
object_of (hit kind fs place name) = fs

-- The object that takes a resolvent's slot.
abbrev pub spliced : Bool → (Fields → Fields) → Fields → Value
spliced attach f fs = object (marked attach fs (f fs))

module _ (attach : Bool) (series : Hit → Option Fields) (f : Fields → Fields) where
  substitute_all-put_all :
      (hs : List Hit) (root : Value)
      → ((h : Hit) → series h ≡ some (f (object_of h)))
      → (ws : List Warning) × (substitute_all attach series hs root
          ≡ some (put_all (spliced attach f) hs root, ws))
  unfolding substitute_all put_all substitute
  substitute_all-put_all [] root e = ([], refl)
  substitute_all-put_all (hit kind fs place name ∷ hs) root e =
      let rest = substitute_all-put_all hs (put place (spliced attach f fs) root) e in
      (
        warnings attach (f fs) ++ rest.0,
        rw (e (hit kind fs place name)) (ap (also_warn (warnings attach (f fs))) rest.1),
      )

  -- Where every series decodes to an object that depends only on the resolvent's object, substituting
  -- all that `walk` finds in a decoded document succeeds, and comes to replacing, in one pass, every
  -- resolvent that is not inside a resolvent or a time series, and nothing else.
  pub substitute_all-replace :
      (root : Value)
      → OneKey root
      → ((h : Hit) → series h ≡ some (f (object_of h)))
      → (ws : List Warning) × (substitute_all attach series (walk root) root
          ≡ some (replace_root (spliced attach f) root, ws))
  substitute_all-replace root w e =
      let done = substitute_all-put_all (walk root) root e in
      (done.0, done.1 ∙ ap (λ v. some (v, done.0)) (put_all-walk (spliced attach f) root w))

field_of-set_field :
    (k j : String) (v : Value) (fs : Fields)
    → str_eq k j ≡ false
    → field_of j (set_field k v fs) ≡ field_of j fs
unfolding field_of set_field
field_of-set_field k j v end e = rw e refl
field_of-set_field k j v (field i u fs) e = elim (Bool-cases (str_eq i k)) [
  | inl q ↦
      let other : str_eq i j ≡ false = ap (λ x. str_eq x j) (str_eq→≡ i k q) ∙ e in
      rw (q, other) refl
  | inr q ↦ elim (Bool-cases (is_lt (compare k i))) [
    | inl l ↦ rw (q, l, e) refl
    | inr l ↦ elim (Bool-cases (str_eq i j)) [
      | inl s ↦ rw (q, l, s) refl
      | inr s ↦ rw (q, l, s) (field_of-set_field k j v fs e)
    ]
  ]
]

is_time_series-marked :
    (attach : Bool) (original series : Fields)
    → is_time_series series ≡ true
    → is_time_series (marked attach original series) ≡ true
unfolding is_time_series marked
is_time_series-marked true original series e =
    rw (field_of-set_field "resolvent" "type" (object original) series refl) e
is_time_series-marked false original series e = e

time_series-plain : (fs : Fields) → is_time_series fs ≡ true → resolvent_type fs ≡ none
unfolding is_time_series resolvent_type
time_series-plain fs e = elim (Option-cases (text_field "type" fs)) [
  | inl q ↦ rw q refl
  | inr (t, q) ↦
      let own : str_eq t "time-series" ≡ true = rw q at e in
      rw (q, str_eq→≡ t "time-series" own) refl
]

module _ (g : Fields → Fields) where
  abbrev new : Fields → Value
  new fs = object (g fs)

  text_of-replace : (v : Value) → text_of (some (replace new v)) ≡ text_of (some v)
  unfolding replace
  text_of-replace null = refl
  text_of-replace (boolean b) = refl
  text_of-replace (number n) = refl
  text_of-replace (string s) = refl
  text_of-replace (array xs) = refl
  text_of-replace (object fs) = elim (Option-cases (resolvent_type fs)) [
    | inr (kind, e) ↦ rw e refl
    | inl e ↦ elim (Bool-cases (is_time_series fs)) [
      | inl t ↦ rw (e, t) refl
      | inr t ↦ rw (e, t) refl
    ]
  ]

  text_field-replace_fields :
      (k : String) (fs : Fields) → text_field k (replace_fields new fs) ≡ text_field k fs
  unfolding replace field_of
  text_field-replace_fields k end = refl
  text_field-replace_fields k (field j v fs) = elim (Bool-cases (str_eq j k)) [
    | inl q ↦ rw q (text_of-replace v)
    | inr q ↦ rw q (text_field-replace_fields k fs)
  ]

  is_time_series-replace_fields :
      (fs : Fields) → is_time_series (replace_fields new fs) ≡ is_time_series fs
  unfolding is_time_series
  is_time_series-replace_fields fs = rw (text_field-replace_fields "type" fs) refl

  resolvent_type-replace_fields :
      (fs : Fields) → resolvent_type (replace_fields new fs) ≡ resolvent_type fs
  unfolding resolvent_type
  resolvent_type-replace_fields fs = rw (text_field-replace_fields "type" fs) refl

  module _ (data_only : (fs : Fields) → is_time_series (g fs) ≡ true) where
    mutual
      unfolding visit replace

      visit-replace : (k : String) (v : Value) → visit k (replace new v) ≡ []
      visit-replace k null = refl
      visit-replace k (boolean b) = refl
      visit-replace k (number n) = refl
      visit-replace k (string s) = refl
      visit-replace k (array xs) = visit_items-replace 0 xs
      visit-replace k (object fs) = elim (Option-cases (resolvent_type fs)) [
        | inr (kind, e) ↦ rw (e, time_series-plain (g fs) (data_only fs), data_only fs) refl
        | inl e ↦ elim (Bool-cases (is_time_series fs)) [
          | inl t ↦ rw (e, t, e, t) refl
          | inr t ↦
              rw (e, t, resolvent_type-replace_fields fs, e, is_time_series-replace_fields fs, t)
                (visit_fields-replace fs)
        ]
      ]

      visit_items-replace : (i : ℕ) (xs : Items) → visit_items i (replace_items new xs) ≡ []
      visit_items-replace i nil = refl
      visit_items-replace i (cons x xs) =
          rw (visit-replace "" x, visit_items-replace (suc i) xs) refl

      visit_fields-replace : (fs : Fields) → visit_fields (replace_fields new fs) ≡ []
      visit_fields-replace end = refl
      visit_fields-replace (field k v fs) = rw (visit-replace k v, visit_fields-replace fs) refl

    walk-replace_root : (v : Value) → walk (replace_root new v) ≡ []
    unfolding walk replace_root replace visit
    walk-replace_root null = refl
    walk-replace_root (boolean b) = refl
    walk-replace_root (number n) = refl
    walk-replace_root (string s) = refl
    walk-replace_root (array xs) = visit_items-replace 0 xs
    walk-replace_root (object fs) = elim (Bool-cases (is_time_series fs)) [
      | inl t ↦ rw (t, t) refl
      | inr t ↦ rw (t, is_time_series-replace_fields fs, t) (visit_fields-replace fs)
    ]

-- Where every series decodes to a time series that depends only on the resolvent's object, the
-- document after the substitution, whether or not the resolvents are attached to it, holds no
-- resolvent that `walk` would find again.
pub substitute_all-walk :
    (attach : Bool) (series : Hit → Option Fields) (f : Fields → Fields) (root : Value)
    → OneKey root
    → ((h : Hit) → series h ≡ some (f (object_of h)))
    → ((fs : Fields) → is_time_series (f fs) ≡ true)
    → (new_root : Value) × (ws : List Warning) × (substitute_all attach series (walk root) root
        ≡ some (new_root, ws))
      × (walk new_root ≡ [])
substitute_all-walk attach series f root w e t =
    let done = substitute_all-replace attach series f root w e in
    (
      replace_root (spliced attach f) root,
      done.0,
      done.1,
      walk-replace_root (λ fs. marked attach fs (f fs))
          (λ fs. is_time_series-marked attach fs (f fs) (t fs)) root,
    )
