-- ===== src/Worker/Fetch/Unique.antt =====
-- `uniqueByHash`: each hash stays once.
use tenta_cron.Prelude.{
  ◌≡◌, refl, sym, ap, ◌∙◌, String, str_eq, str_eq→≡, str_eq_refl, Bool, true, false, ◌&&◌, not,
  List, [], ◌∷◌, Bool-cases, inl, inr,
}
use tenta_cron.Worker.Fetch.{has_hash, unique_from, unique_by_hash}

-- No hash stands twice.
abbrev pub Distinct : List String → Type 0
Distinct [] = Unit
Distinct (h ∷ hs) = (has_hash hs h ≡ false) × Distinct hs

and_false : (b : Bool) → (b && false) ≡ false
and_false true = refl
and_false false = refl

and_true : (b : Bool) → (b && true) ≡ b
and_true true = refl
and_true false = refl

has_hash-seen : (h : String) (seen : List String) → has_hash (h ∷ seen) h ≡ true
unfolding has_hash
has_hash-seen h seen = rw (str_eq_refl h) refl

has_hash-unique_from :
    (seen hs : List String) (k : String)
    → has_hash (unique_from seen hs) k ≡ (has_hash hs k && not (has_hash seen k))
unfolding unique_from has_hash
has_hash-unique_from seen [] k = refl
has_hash-unique_from seen (h ∷ hs) k = elim (Bool-cases (has_hash seen h)) [
  | inl e ↦ elim (Bool-cases (str_eq h k)) [
    | inl f ↦
        let seen_k : has_hash seen k ≡ true = ap (has_hash seen) (sym (str_eq→≡ h k f)) ∙ e in
        rw (e, has_hash-unique_from seen hs k, f, seen_k) (and_false (has_hash hs k))
    | inr f ↦ rw (e, f) (has_hash-unique_from seen hs k)
  ]
  | inr e ↦ elim (Bool-cases (str_eq h k)) [
    | inl f ↦
        let free : has_hash seen k ≡ false = ap (has_hash seen) (sym (str_eq→≡ h k f)) ∙ e in
        rw (e, f, free) refl
    | inr f ↦ rw (e, f, has_hash-unique_from (h ∷ seen) hs k, f) refl
  ]
]

unique_from-Distinct : (seen hs : List String) → Distinct (unique_from seen hs)
unfolding unique_from
unique_from-Distinct seen [] = tt
unique_from-Distinct seen (h ∷ hs) = elim (Bool-cases (has_hash seen h)) [
  | inl e ↦ rw e (unique_from-Distinct seen hs)
  | inr e ↦ rw e (
    rw (has_hash-unique_from (h ∷ seen) hs h, has_hash-seen h seen) (and_false (has_hash hs h)),
    unique_from-Distinct (h ∷ seen) hs,
  )
]

-- `uniqueByHash` keeps no hash twice and loses none, so that a map by hash has one entry for each
-- task of `fetchAll`.
pub unique_by_hash-Distinct :
    (hs : List String)
    → Distinct (unique_by_hash hs) × ((k : String) → has_hash (unique_by_hash hs) k ≡ has_hash hs k)
unfolding unique_by_hash has_hash
unique_by_hash-Distinct hs =
    (unique_from-Distinct [] hs, λ k. has_hash-unique_from [] hs k ∙ and_true (has_hash hs k))
