-- ===== src/Access/Keys.antt =====
-- Who a presented key belongs to, and which callback URLs pass.
use tenta_cron.Prelude.{
  ◌≡◌, ◌↔◌, ◌∙◌, ap, refl, String, str_eq, true, false, Option, none, some, List, [], ◌∷◌,
  Bool-cases, inl, inr, find_where, ◌++◌, ◌≢◌, str_eq→≡, str_eq_refl, or_true,
}
use mathlib.Core.Option
use tenta_cron.Cors.Bytes.{bytes, to_lower, equal_fold}
use tenta_cron.Cors.Bytes.Laws.{eq_bytes→≡, eq_bytes_refl}
use tenta_cron.Access.{
  ApiKey, Identity, opens, identity_of, authenticate_from, authenticate, Url, is_allowed, check_url,
  check,
}

authenticate_from_found :
    (id : Identity) (presented : String) (ks : List ApiKey)
    → authenticate_from (some id) presented ks ≡ some id
unfolding authenticate_from
authenticate_from_found id presented [] = refl
authenticate_from_found id presented (k ∷ ks) = elim (Bool-cases (opens k presented)) [
  | inl e ↦ rw e (authenticate_from_found id presented ks)
  | inr e ↦ rw e (authenticate_from_found id presented ks)
]

-- Although every key is compared, the caller is who the first key in the list names that opens for
-- the presented text: by its key, or by a previous key that is not empty.
pub authenticate-find_where :
    (presented : String) (ks : List ApiKey)
    → authenticate presented ks ≡ Option.map identity_of (find_where (λ k. opens k presented) ks)
unfolding authenticate authenticate_from find_where
authenticate-find_where presented [] = refl
authenticate-find_where presented (k ∷ ks) = elim (Bool-cases (opens k presented)) [
  | inl e ↦ rw e (authenticate_from_found (identity_of k) presented ks)
  | inr e ↦ rw e (authenticate-find_where presented ks)
]

-- An entry of the list is the host once both are in lower case.
abbrev pub Listed : List String → String → Type 0
Listed allowed host =
    (before : List String) × (entry : String) × (after : List String) × (allowed
      ≡ before ++ entry ∷ after)
    × (to_lower (bytes entry) ≡ to_lower (bytes host))

is_allowed-Listed :
    (allowed : List String) (host : String) → is_allowed allowed host ≡ true → Listed allowed host
unfolding is_allowed
is_allowed-Listed [] host h = let no : ⊥ = cc in elim no [ ]
is_allowed-Listed (a ∷ rest) host h = elim (Bool-cases (equal_fold (bytes a) (bytes host))) [
  | inl e ↦ ([], a, rest, refl, eq_bytes→≡ (to_lower (bytes a)) (to_lower (bytes host)) e)
  | inr e ↦
      let (before, b, after, split, same) = is_allowed-Listed rest host (rw e at h) in
      (a ∷ before, b, after, ap (λ xs. a ∷ xs) split, same)
]

allowed_after :
    (before : List String) (b : String) (after : List String) (host : String)
    → to_lower (bytes b) ≡ to_lower (bytes host)
    → is_allowed (before ++ b ∷ after) host ≡ true
unfolding is_allowed
allowed_after [] b after host same =
    let folded : equal_fold (bytes b) (bytes host) ≡ true =
      rw same (eq_bytes_refl (to_lower (bytes host))) in
    rw folded refl
allowed_after (a ∷ before) b after host same =
    rw (allowed_after before b after host same) (or_true (equal_fold (bytes a) (bytes host)))

differ : (a b : String) → str_eq a b ≡ false → a ≢ b
differ a b h e = cc (rw (e, str_eq_refl b) at h)

differ_test : (a b : String) → a ≢ b → str_eq a b ≡ false
differ_test a b h = elim (Bool-cases (str_eq a b)) [
  | inl e ↦ elim (h (str_eq→≡ a b e)) [ ]
  | inr e ↦ e
]

-- What an accepted callback URL is.
pub record Fenced (allowed : List String) (u : Url) : Type 0 where
  pub https : u.scheme ≡ "https"
  pub no_user : u.has_user ≡ false
  pub has_host : u.host ≢ ""
  pub listed : Listed allowed u.host

check_url-Fenced :
    (allowed : List String) (u : Url) → check_url allowed (some u) ≡ none → Fenced allowed u
check_url-Fenced allowed u h = elim (Bool-cases (str_eq u.scheme "https")) [
  | inr a ↦ let no : ⊥ = cc (rw a at h) in elim no [ ]
  | inl a ↦ elim (Bool-cases u.has_user) [
    | inl b ↦ let no : ⊥ = cc (rw (a, b) at h) in elim no [ ]
    | inr b ↦ elim (Bool-cases (str_eq u.host "")) [
      | inl c ↦ let no : ⊥ = cc (rw (a, b, c) at h) in elim no [ ]
      | inr c ↦ elim (Bool-cases (is_allowed allowed u.host)) [
        | inl d ↦ record {
          https = str_eq→≡ u.scheme "https" a;
          no_user = b;
          has_host = differ u.host "" c;
          listed = is_allowed-Listed allowed u.host d;
        }
        | inr d ↦ let no : ⊥ = cc (rw (a, b, c, d) at h) in elim no [ ]
      ]
    ]
  ]
]

Fenced-check_url :
    (allowed : List String) (u : Url) → Fenced allowed u → check_url allowed (some u) ≡ none
Fenced-check_url allowed u f =
    let (before, entry, after, split, same) = f.listed in
    let secure : str_eq u.scheme "https" ≡ true = rw (f.https) refl in
    let found : is_allowed allowed u.host ≡ true =
      rw split (allowed_after before entry after u.host same) in
    rw (secure, f.no_user, differ_test u.host "" f.has_host, found) refl

none-Listed : (host : String) → Listed [] host → ⊥
none-Listed host ([], b, after, split, same) = cc
none-Listed host (a ∷ before, b, after, split, same) = cc

-- A callback URL is accepted exactly when its text is a URL with the scheme https, without user
-- information and with a host that is not empty and that some entry of the list comes to once the
-- ASCII letters of both are in lower case. So where nothing is listed no URL is.
pub check-Fenced :
    (allowed : List String) (url : Option Url)
    → (check allowed url ≡ none) ↔ ((u : Url) × (url ≡ some u) × Fenced allowed u)
unfolding check
check-Fenced [] url =
    (λ h. let no : ⊥ = cc in elim no [ ], λ (u, e, f). elim (none-Listed u.host f.listed) [ ])
check-Fenced (host ∷ hs) none =
    (λ h. let no : ⊥ = cc in elim no [ ], λ (u, e, f). let no : ⊥ = cc (e) in elim no [ ])
check-Fenced (host ∷ hs) (some u) = (
  λ h. (u, refl, check_url-Fenced (host ∷ hs) u h),
  λ (v, e, f). ap (check_url (host ∷ hs)) e ∙ Fenced-check_url (host ∷ hs) v f,
)
