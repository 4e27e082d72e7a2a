-- ===== src/Config/Keys.antt =====
-- What a list of API keys is once the method `auth` of the validator has nothing to report on it.
use tenta_cron.Prelude.{
  ℕ, suc, ◌<◌, ◌≡◌, ◌≢◌, ◌⊎◌, inl, inr, String, str_eq, str_eq→≡, str_eq_refl, false, not, ◌&&◌,
  List, [], ◌∷◌, All, or_false, Bool-cases, arith, length,
}
use tenta_cron.Config.{
  report, ClientKey, has_seen, key_problems, auth_from, nothing_listed, auth, key_checks, no_name,
  no_key, unknown_role, duplicate_name, no_keys,
}
use tenta_cron.Config.Accepted.{append_nil, joined_nil, report_nil}

abbrev pub name_of : ClientKey → String
name_of k = k.opening.name

-- A key that somebody can present, under a name that the checks of the owner can tell.
pub record Usable (k : ClientKey) : Type 0 where
  pub named : name_of k ≢ ""
  pub keyed : k.opening.key ≢ ""
  pub role : (k.opening.role ≡ "client") ⊎ (k.opening.role ≡ "admin")

-- No two keys have a name in common.
abbrev pub Distinct : List ClientKey → Type 0
Distinct [] = Unit
Distinct (k ∷ ks) = All (λ o. name_of k ≢ name_of o) ks × Distinct ks

differ : (a b : String) → str_eq a b ≡ false → a ≢ b
differ a b h e = cc (rw (e, str_eq_refl b) at h)

one_of : (a b c : String) → (not (str_eq a b) && not (str_eq a c)) ≡ false → (a ≡ b) ⊎ (a ≡ c)
one_of a b c h = elim (Bool-cases (str_eq a b)) [
  | inl e ↦ inl (str_eq→≡ a b e)
  | inr e ↦ elim (Bool-cases (str_eq a c)) [
    | inl f ↦ inr (str_eq→≡ a c f)
    | inr f ↦ let no : ⊥ = cc (rw (e, f) at h) in elim no [ ]
  ]
]

Unseen : List String → ClientKey → Type 0
Unseen seen k = has_seen seen (name_of k) ≡ false

-- What the loop has not seen is apart from the key before it.
fresh :
    (s : String) (seen : List String) (ks : List ClientKey)
    → All (Unseen (s ∷ seen)) ks
    → All (λ o. s ≢ name_of o) ks × All (Unseen seen) ks
unfolding Unseen has_seen
fresh s seen [] h = (tt, tt)
fresh s seen (k ∷ ks) (h, hs) =
    let split = or_false (str_eq s (name_of k)) (has_seen seen (name_of k)) h in
    let rest = fresh s seen ks hs in ((differ s (name_of k) split.0, rest.0), (split.1, rest.1))

key_problems-Usable :
    (seen : List String) (i : ℕ) (k : ClientKey)
    → key_problems seen i k ≡ []
    → Usable k × Unseen seen k
unfolding key_problems Unseen
key_problems-Usable seen i k h =
    let checks = joined_nil (key_checks seen i k) h in
    (
      record {
        named = differ (name_of k) "" (report_nil _ (no_name i) checks.0);
        keyed = differ k.opening.key "" (report_nil _ (no_key i) checks.1.0);
        role =
            one_of k.opening.role "client" "admin" (report_nil _ (unknown_role i) checks.1.1.1.1.0);
      },
      report_nil _ (duplicate_name (name_of k)) checks.1.1.0,
    )

auth_from-Distinct :
    (seen : List String) (i : ℕ) (ks : List ClientKey)
    → auth_from seen i ks ≡ []
    → All Usable ks × All (Unseen seen) ks × Distinct ks
unfolding auth_from
auth_from-Distinct seen i [] h = (tt, tt, tt)
auth_from-Distinct seen i (k ∷ ks) h =
    let both = append_nil (key_problems seen i k) (auth_from (name_of k ∷ seen) (suc i) ks) h in
    let own = key_problems-Usable seen i k both.0 in
    let (usable, unseen, apart) = auth_from-Distinct (name_of k ∷ seen) (suc i) ks both.1 in
    let split = fresh (name_of k) seen ks unseen in
    ((own.0, usable), (own.1, split.1), (split.0, apart))

some_key : (ks : List ClientKey) → nothing_listed ks ≡ false → 0 < length ks
some_key [] h = let no : ⊥ = cc in elim no [ ]
some_key (k ∷ ks) h = omega arith

-- A list of API keys with nothing to report is not empty; each key has a name, a text to present
-- and a role, and no two keys have a name in common: a name belongs to the holder of one key.
pub auth-Distinct :
    (ks : List ClientKey) → auth ks ≡ [] → (0 < length ks) × All Usable ks × Distinct ks
unfolding auth
auth-Distinct ks h =
    let both = append_nil (report (nothing_listed ks) no_keys) (auth_from [] 0 ks) h in
    let (usable, unseen, apart) = auth_from-Distinct [] 0 ks both.1 in
    (some_key ks (report_nil _ no_keys both.0), usable, apart)
