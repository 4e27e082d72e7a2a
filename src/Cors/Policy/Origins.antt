-- ===== src/Cors/Policy/Origins.antt =====
-- Which origins the policy admits, against the configuration's entries.
use tenta_cron.Prelude.{
  ◌+◌, ◌≤◌, ◌<◌, ◌≡◌, ◌↔◌, refl, sym, ◌∙◌, ap, Bool, true, false, ◌&&◌, ◌||◌, Option, none, some,
  List, [], ◌∷◌, ◌++◌, if◌then◌else◌, ltb, length, arith, Bool-cases, Option-cases, inl, inr,
  and_left, and_right, or_true,
}
use tenta_cron.Cors.Bytes.{
  bytes, eq_bytes, to_lower, strip_prefix, has_prefix, has_suffix, cut, has_entry,
}
use tenta_cron.Cors.Bytes.Laws.{
  strip_prefix-append, strip_prefix_own, has_suffix-append, has_suffix_own,
}
use tenta_cron.Cors.Policy.{
  Text, CorsConfig, star, Wildcard, matches, Policy, wildcard_of, add_pattern, add_origin,
  add_origins, empty_policy, new_policy, any_matches, origin_allowed,
}

pub or_false : (b : Bool) → (b || false) ≡ b
or_false true = refl
or_false false = refl

or_assoc : (a b c : Bool) → ((a || b) || c) ≡ (a || (b || c))
or_assoc true b c = refl
or_assoc false b c = refl

or_move : (a b c d : Bool) → ((a || (b || c)) || d) ≡ (((a || c) || d) || b)
or_move true b c d = refl
or_move false true c d = sym (or_true (c || d))
or_move false false c d = sym (or_false (c || d))

abbrev pub pattern_allows : Text → Option (Text × Text) → Text → Bool
pattern_allows e none o = eq_bytes o e
pattern_allows e (some (before, after)) o = matches (wildcard_of before after) o

-- One entry of the configuration, in lower case, read directly.
abbrev pub entry_allows : Text → Text → Bool
entry_allows e o = if eq_bytes e star then true else pattern_allows e (cut e (bytes "://*.")) o

abbrev pub any_allows : List Text → Text → Bool
any_allows [] o = false
any_allows (e ∷ es) o = entry_allows (to_lower e) o || any_allows es o

-- `originAllowed` of an origin in lower case.
abbrev allowed_by : Policy → Text → Bool
allowed_by p o = p.allow_all || has_entry o p.exact || any_matches p.wildcards o

any_matches-append_one :
    (ws : List Wildcard) (w : Wildcard) (o : Text)
    → any_matches (ws ++ w ∷ []) o ≡ (any_matches ws o || matches w o)
unfolding any_matches
any_matches-append_one [] w o = or_false (matches w o)
any_matches-append_one (v ∷ ws) w o =
    rw (any_matches-append_one ws w o)
      (sym (or_assoc (matches v o) (any_matches ws o) (matches w o)))

allowed_by-add_pattern :
    (e : Text) (c : Option (Text × Text)) (p : Policy) (o : Text)
    → allowed_by (add_pattern e c p) o ≡ (allowed_by p o || pattern_allows e c o)
unfolding has_entry
allowed_by-add_pattern e none p o =
    or_move p.allow_all (eq_bytes o e) (has_entry o p.exact) (any_matches p.wildcards o)
allowed_by-add_pattern e (some (before, after)) p o =
    rw (any_matches-append_one p.wildcards (wildcard_of before after) o) (
      sym (
        or_assoc (p.allow_all || has_entry o p.exact) (any_matches p.wildcards o)
          (matches (wildcard_of before after) o)))

allowed_by-add_origin :
    (e : Text) (p : Policy) (o : Text)
    → allowed_by (add_origin e p) o ≡ (allowed_by p o || entry_allows e o)
allowed_by-add_origin e p o = elim (Bool-cases (eq_bytes e star)) [
  | inl q ↦ rw q (sym (or_true (allowed_by p o)))
  | inr q ↦ rw q (allowed_by-add_pattern e (cut e (bytes "://*.")) p o)
]

allowed_by-add_origins :
    (os : List Text) (p : Policy) (o : Text)
    → allowed_by (add_origins os p) o ≡ (allowed_by p o || any_allows os o)
unfolding add_origins
allowed_by-add_origins [] p o = sym (or_false (allowed_by p o))
allowed_by-add_origins (e ∷ os) p o =
    allowed_by-add_origins os (add_origin (to_lower e) p) o
    ∙ ap (λ b. b || any_allows os o) (allowed_by-add_origin (to_lower e) p o)
    ∙ or_assoc (allowed_by p o) (entry_allows (to_lower e) o) (any_allows os o)

-- The normalised policy, with its set of origins and its patterns, admits exactly the origins that
-- some entry of the configuration admits when it is read directly, in lower case: any origin for
-- `*`, what matches a pattern with `://*.`, and otherwise the entry itself.
pub origin_allowed-new_policy :
    (cfg : CorsConfig) (origin : Text)
    → origin_allowed (new_policy cfg) origin ≡ any_allows cfg.allowed_origins (to_lower origin)
unfolding origin_allowed new_policy has_entry any_matches
origin_allowed-new_policy cfg origin =
    allowed_by-add_origins cfg.allowed_origins (empty_policy cfg) (to_lower origin)

pub length-append : (s t : Text) → length (s ++ t) ≡ length s + length t
length-append [] t = omega arith
length-append (c ∷ s) t = omega (arith, length-append s t)

append_assoc : (s t u : Text) → (s ++ t) ++ u ≡ s ++ (t ++ u)
append_assoc [] t u = refl
append_assoc (c ∷ s) t u = rw (append_assoc s t u) refl

abbrev tail_of : Text → Text
tail_of [] = []
tail_of (c ∷ s) = s

has_prefix-append : (s p : Text) → has_prefix s p ≡ true → (t : Text) × (s ≡ p ++ t)
has_prefix-append s p h = elim (Option-cases (strip_prefix p s)) [
  | inl e ↦ let no : ⊥ = cc (rw e at h) in elim no [ ]
  | inr (t, e) ↦ (t, strip_prefix-append p s t e)
]

-- A text that starts with `p`, and of which `s` is the end, with room for both.
overlap : (p t u s : Text) → p ++ t ≡ u ++ s → length s ≤ length t → (sub : Text) × (t ≡ sub ++ s)
overlap [] t u s e l = (u, e)
overlap (c ∷ p) t [] s e l =
    let long : length (c ∷ p ++ t) ≡ length s = ap length e in
    let no : ⊥ = omega (arith, length-append p t) in elim no [ ]
overlap (c ∷ p) t (d ∷ u) s e l = overlap p t u s (ap tail_of e) l

matches-parts :
    (w : Wildcard) (o : Text)
    → matches w o ≡ true
    → (sub : Text) × (o ≡ w.prefix ++ (sub ++ w.suffix)) × (0 < length sub)
unfolding matches
matches-parts w o h =
    let fits : Bool = ltb (length w.prefix + length w.suffix) (length o) in
    let both : (fits && has_prefix o w.prefix) ≡ true =
      and_left (fits && has_prefix o w.prefix) (has_suffix o w.suffix) h in
    let long : ltb (length w.prefix + length w.suffix) (length o) ≡ true =
      and_left fits (has_prefix o w.prefix) both in
    let starts = has_prefix-append o w.prefix (and_right fits (has_prefix o w.prefix) both) in
    let ends =
      has_suffix-append o w.suffix
        (and_right (fits && has_prefix o w.prefix) (has_suffix o w.suffix) h) in
    let size : length o ≡ length w.prefix + length starts.0 =
      ap length starts.1 ∙ length-append w.prefix starts.0 in
    let room : length w.suffix < length starts.0 = ground arith in
    let mid = overlap w.prefix starts.0 ends.0 w.suffix (sym starts.1 ∙ ends.1) (omega arith) in
    let inner : length starts.0 ≡ length mid.0 + length w.suffix =
      ap length mid.1 ∙ length-append mid.0 w.suffix in
    (mid.0, starts.1 ∙ ap (λ x. w.prefix ++ x) mid.1, omega arith)

parts-matches :
    (w : Wildcard) (sub : Text) → 0 < length sub → matches w (w.prefix ++ (sub ++ w.suffix)) ≡ true
unfolding matches
parts-matches w sub l =
    let size : length (w.prefix ++ (sub ++ w.suffix))
        ≡ length w.prefix + (length sub + length w.suffix) =
      length-append w.prefix (sub ++ w.suffix)
      ∙ ap (λ n. length w.prefix + n) (length-append sub w.suffix) in
    let long : ltb (length w.prefix + length w.suffix) (length (w.prefix ++ (sub ++ w.suffix)))
        ≡ true =
      ground arith in
    let ends : has_suffix (w.prefix ++ (sub ++ w.suffix)) w.suffix ≡ true =
      ap (λ x. has_suffix x w.suffix) (sym (append_assoc w.prefix sub w.suffix))
      ∙ has_suffix_own (w.prefix ++ sub) w.suffix in
    rw (long, strip_prefix_own w.prefix (sub ++ w.suffix), ends) refl

-- A pattern matches an origin exactly when there is a text, at least one byte long, between the
-- pattern's beginning and its end: `https://*.example.org` matches any depth of subdomains, and
-- neither `https://example.org` nor `https://evil-example.org`.
pub matches_iff :
    (w : Wildcard) (o : Text)
    → (matches w o ≡ true) ↔ ((sub : Text) × (o ≡ w.prefix ++ (sub ++ w.suffix)) × (0 < length sub))
matches_iff w o = (matches-parts w o, λ (sub, e, l). ap (matches w) e ∙ parts-matches w sub l)
