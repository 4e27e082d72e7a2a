-- ===== src/Cors/Policy/Responses.antt =====
-- What a browser is told, against the configuration.
use tenta_cron.Prelude.{
  ◌+◌, ◌≡◌, ◌≢◌, refl, sym, ◌∙◌, ap, String, str_eq, Bool, true, false, ◌&&◌, ◌||◌, Option, none,
  some, List, [], ◌∷◌, ◌++◌, if◌then◌else◌, ltb, length, is_some, arith, Bool-cases, inl, inr,
  and_right, or_true,
}
use tenta_cron.Cors.Bytes.{bytes, eq_bytes, to_lower, cut, has_entry}
use tenta_cron.Cors.Bytes.Laws.{eq_bytes_refl, eq_bytes→≡}
use tenta_cron.Cors.Policy.{
  Text, CorsConfig, star, allows_any, validate, star_methods, star_expose, star_origin, matches,
  Policy, add_pattern, add_origin, add_origins, empty_policy, new_policy, origin_allowed,
  allow_origin_value, HeaderValue, one, Header, CorsRequest, Served, passed_on, answered, is_named,
  preflight, actual, serve,
}
use tenta_cron.Cors.Policy.Origins.{
  pattern_allows, any_allows, or_false, origin_allowed-new_policy, length-append,
}

abbrev pub headers_of : Served → List Header
headers_of (passed_on hs) = hs
headers_of (answered hs) = hs

abbrev pub header_named : String → List Header → Option HeaderValue
header_named k [] = none
header_named k ((j, v) ∷ hs) = if str_eq j k then some v else header_named k hs

-- The origin that a response lets read it.
abbrev pub allowed_origin : Served → Option HeaderValue
allowed_origin s = header_named "Access-Control-Allow-Origin" (headers_of s)

add_pattern-flags :
    (e : Text) (c : Option (Text × Text)) (p : Policy)
    → ((add_pattern e c p).allow_all ≡ p.allow_all)
      × ((add_pattern e c p).credentials ≡ p.credentials)
      × ((add_pattern e c p).enabled ≡ p.enabled)
add_pattern-flags e none p = (refl, refl, refl)
add_pattern-flags e (some (before, after)) p = (refl, refl, refl)

lower_star : (o : Text) → eq_bytes (to_lower o) star ≡ eq_bytes o star
unfolding eq_bytes
lower_star [] = refl
lower_star (c ∷ []) = ground arith
lower_star (c ∷ d ∷ o) = ground arith

add_origin-flags :
    (o : Text) (p : Policy)
    → ((add_origin (to_lower o) p).allow_all ≡ (eq_bytes o star || p.allow_all))
      × ((add_origin (to_lower o) p).credentials ≡ p.credentials)
      × ((add_origin (to_lower o) p).enabled ≡ p.enabled)
add_origin-flags o p = elim (Bool-cases (eq_bytes o star)) [
  | inl q ↦ rw (lower_star o, q) (refl, refl, refl)
  | inr q ↦
      rw (lower_star o, q) (add_pattern-flags (to_lower o) (cut (to_lower o) (bytes "://*.")) p)
]

or_swap : (a b c : Bool) → (b || (a || c)) ≡ ((a || b) || c)
or_swap true b c = or_true b
or_swap false b c = refl

add_origins-flags :
    (os : List Text) (p : Policy)
    → ((add_origins os p).allow_all ≡ (allows_any os || p.allow_all))
      × ((add_origins os p).credentials ≡ p.credentials)
      × ((add_origins os p).enabled ≡ p.enabled)
unfolding add_origins allows_any
add_origins-flags [] p = (refl, refl, refl)
add_origins-flags (o ∷ os) p =
    let rest = add_origins-flags os (add_origin (to_lower o) p) in
    let here = add_origin-flags o p in
    (
      rest.0
          ∙ ap (λ b. allows_any os || b) here.0
          ∙ or_swap (eq_bytes o star) (allows_any os) p.allow_all,
      rest.1 ∙ here.1,
      rest.2 ∙ here.2,
    )

-- No pattern and no exact entry admits the text `*` as an origin.
pattern_allows-star :
    (e : Text) (c : Option (Text × Text))
    → eq_bytes e star ≡ false
    → pattern_allows e c star ≡ false
unfolding matches
pattern_allows-star e none q = elim (Bool-cases (eq_bytes star e)) [
  | inl s ↦
      let no : ⊥ = cc (ap (λ x. eq_bytes x star) (sym (eq_bytes→≡ star e s)), eq_bytes_refl star) in
      elim no [ ]
  | inr s ↦ s
]
pattern_allows-star e (some (before, after)) q =
    let long : ltb (length (before ++ bytes "://") + length (bytes "." ++ after)) (length star)
        ≡ false =
      ground (arith, length-append before (bytes "://")) in
    rw long refl

any_allows-star : (os : List Text) → any_allows os star ≡ allows_any os
unfolding allows_any
any_allows-star [] = refl
any_allows-star (o ∷ os) = elim (Bool-cases (eq_bytes o star)) [
  | inl q ↦ rw (lower_star o, q) refl
  | inr q ↦
      let low : eq_bytes (to_lower o) star ≡ false = lower_star o ∙ q in
      rw (low, q, pattern_allows-star (to_lower o) (cut (to_lower o) (bytes "://*.")) low)
        (any_allows-star os)
]

-- A validated configuration with credentials does not list `*`.
validate-allows_any :
    (cfg : CorsConfig)
    → validate cfg ≡ none
    → cfg.allow_credentials ≡ true
    → allows_any cfg.allowed_origins ≡ false
unfolding validate
validate-allows_any cfg v c = elim (Bool-cases (allows_any cfg.allowed_origins)) [
  | inr a ↦ a
  | inl a ↦ elim (Bool-cases (has_entry star cfg.allowed_methods)) [
    | inl m ↦
        let no : some star_methods ≡ none = rw (c, m) at v in let never : ⊥ = cc in elim never [ ]
    | inr m ↦ elim (Bool-cases (has_entry star cfg.expose_headers)) [
      | inl h ↦
          let no : some star_expose ≡ none = rw (c, m, h) at v in
          let never : ⊥ = cc in elim never [ ]
      | inr h ↦
          let no : some star_origin ≡ none = rw (c, m, h, a) at v in
          let never : ⊥ = cc in elim never [ ]
    ]
  ]
]

allow_all-new_policy :
    (cfg : CorsConfig) → (new_policy cfg).allow_all ≡ allows_any cfg.allowed_origins
unfolding new_policy
allow_all-new_policy cfg =
    (add_origins-flags cfg.allowed_origins (empty_policy cfg)).0
    ∙ or_false (allows_any cfg.allowed_origins)

-- The grant that an answer carries: the value for an admitted origin, and nothing for another.
abbrev grant_of : Policy → CorsRequest → Option HeaderValue
grant_of p r =
    if is_named r.origin && origin_allowed p r.origin
    then some (one (allow_origin_value p r.origin))
    else none

allowed_origin-serve :
    (p : Policy) (r : CorsRequest) → p.enabled ≡ true → allowed_origin (serve p r) ≡ grant_of p r
unfolding serve preflight actual
allowed_origin-serve p r on = elim (Bool-cases (r.is_options && is_named r.request_method)) [
  | inl m ↦ elim (Bool-cases (is_named r.origin && origin_allowed p r.origin)) [
    | inl g ↦ simp (on, m, g)
    | inr g ↦ simp (on, m, g)
  ]
  | inr m ↦ elim (Bool-cases (is_named r.origin && origin_allowed p r.origin)) [
    | inl g ↦ simp (on, m, g)
    | inr g ↦ simp (on, m, g)
  ]
]

allowed_origin-off :
    (p : Policy) (r : CorsRequest) → p.enabled ≡ false → allowed_origin (serve p r) ≡ none
unfolding serve
allowed_origin-off p r off = rw off refl

is_some-if : (b : Bool) (v : HeaderValue) → is_some (if b then some v else none) ≡ b
is_some-if true v = refl
is_some-if false v = refl

and_false : (b : Bool) → (b && false) ≡ false
and_false true = refl
and_false false = refl

nothing_listed : (os : List Text) → ltb 0 (length os) ≡ false → os ≡ []
nothing_listed [] h = refl
nothing_listed (o ∷ os) h = let no : ⊥ = ground arith in elim no [ ]

no_origins : (cfg : CorsConfig) → (new_policy cfg).enabled ≡ false → cfg.allowed_origins ≡ []
unfolding new_policy
no_origins cfg off =
    nothing_listed cfg.allowed_origins
      (sym (add_origins-flags cfg.allowed_origins (empty_policy cfg)).2 ∙ off)

-- An answer names an origin that may read it exactly when the request has an origin and some entry of
-- the configuration admits it, whether it is a preflight or not.
pub serve-grants :
    (cfg : CorsConfig) (r : CorsRequest)
    → is_some (allowed_origin (serve (new_policy cfg) r))
      ≡ (is_named r.origin && any_allows cfg.allowed_origins (to_lower r.origin))
serve-grants cfg r = elim (Bool-cases ((new_policy cfg).enabled)) [
  | inl on ↦
      ap is_some (allowed_origin-serve (new_policy cfg) r on)
      ∙ is_some-if (is_named r.origin && origin_allowed (new_policy cfg) r.origin) _
      ∙ ap (λ b. is_named r.origin && b) (origin_allowed-new_policy cfg r.origin)
  | inr off ↦
      ap is_some (allowed_origin-off (new_policy cfg) r off)
      ∙ sym (
          ap (λ os. is_named r.origin && any_allows os (to_lower r.origin)) (no_origins cfg off)
          ∙ and_false (is_named r.origin))
]

-- Where `*` is not listed, no request is granted `*`.
star_refused :
    (cfg : CorsConfig) (r : CorsRequest)
    → allows_any cfg.allowed_origins ≡ false
    → grant_of (new_policy cfg) r ≢ some (one star)
star_refused cfg r a e =
    let closed : (new_policy cfg).allow_all ≡ false = allow_all-new_policy cfg ∙ a in
    elim (Bool-cases (is_named r.origin && origin_allowed (new_policy cfg) r.origin)) [
      | inr g ↦ let no : none ≡ some (one star) = simp g at e in cc
      | inl g ↦
          let own : some (one r.origin) ≡ some (one star) = simp (g, closed) at e in
          let is_star : r.origin ≡ star = cc in
          let admitted : origin_allowed (new_policy cfg) r.origin ≡ true =
            and_right (is_named r.origin) (origin_allowed (new_policy cfg) r.origin) g in
          let refused : origin_allowed (new_policy cfg) r.origin ≡ false =
            origin_allowed-new_policy cfg r.origin
            ∙ ap (λ o. any_allows cfg.allowed_origins (to_lower o)) is_star
            ∙ any_allows-star cfg.allowed_origins
            ∙ a in
          cc
    ]

-- Under a configuration that passed `Validate` and allows credentials no answer, to a preflight or to
-- another request, whatever its headers say, lets every origin read it by `*`.
pub serve-credentials :
    (cfg : CorsConfig) (r : CorsRequest)
    → validate cfg ≡ none
    → cfg.allow_credentials ≡ true
    → allowed_origin (serve (new_policy cfg) r) ≢ some (one star)
serve-credentials cfg r v c e = elim (Bool-cases ((new_policy cfg).enabled)) [
  | inr off ↦ cc (allowed_origin-off (new_policy cfg) r off)
  | inl on ↦
      let granted : grant_of (new_policy cfg) r ≡ some (one star) =
        sym (allowed_origin-serve (new_policy cfg) r on) ∙ e in
      star_refused cfg r (validate-allows_any cfg v c) granted
]
