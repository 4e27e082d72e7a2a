-- ===== src/Cors/Policy.antt =====
-- internal/cors/cors.go: the configuration, its validation, the policy and the headers of a response.
-- What the API's handler writes itself is left out.
pub mod Origins
pub mod Responses
use tenta_cron.Prelude.{
  ℕ, zero, suc, ◌+◌, ◌*◌, ◌/◌, String, Bool, true, false, ◌&&◌, ◌||◌, not, Option, none, some, List,
  [], ◌∷◌, ◌++◌, map, if◌then◌else◌, ◌==◌, leb, ltb, length, is_some, ℤ, pos, negsuc, str_eq,
}
use tenta_cron.Cors.Bytes.{
  bytes, eq_bytes, to_lower, to_upper, upper_byte, lower_byte, equal_fold, strip_prefix, has_prefix,
  has_suffix, cut, contains, has_byte, has_entry,
}

abbrev pub Text : Type 0
Text = List ℕ

-- `Config`; the age is in nanoseconds.
pub record CorsConfig : Type 0 where
  pub allowed_origins : List Text
  pub allowed_methods : List Text
  pub allowed_headers : List Text
  pub expose_headers : List Text
  pub allow_credentials : Bool
  pub max_age : ℤ
  pub allow_private_network : Bool

abbrev pub star : Text
star = bytes "*"

abbrev pub default_methods : List Text
default_methods = map bytes ("GET" ∷ "HEAD" ∷ "POST" ∷ "DELETE" ∷ "OPTIONS" ∷ [])

abbrev pub default_headers : List Text
default_headers = map bytes (
    "Content-Type" ∷ "X-API-Key" ∷ "Idempotency-Key" ∷ "X-Request-ID" ∷ "Range" ∷ "Authorization"
    ∷ [])

abbrev pub default_expose : List Text
default_expose = map bytes (
    "X-Request-ID" ∷ "Allow" ∷ "Retry-After" ∷ "Content-Disposition" ∷ "Content-Length"
    ∷ "Content-Range" ∷ "Accept-Ranges" ∷ [])

-- `AllowsAny`
unfoldable pub allows_any : List Text → Bool
allows_any [] = false
allows_any (o ∷ os) = eq_bytes o star || allows_any os

pub data OriginError : Type 0 where
  empty_entry not_an_origin other_scheme with_path with_credentials misplaced_star : OriginError

-- `len(host) < len("*.x") || strings.Contains(host[1:], "*")`, where the host starts with `*.`
abbrev pub bad_rest : Option Text → Bool
bad_rest none = true
bad_rest (some rest) = eq_bytes rest [] || has_byte b'*' rest

abbrev pub host_error : Text → Option OriginError
host_error host =
    if has_byte b'/' host || has_byte b'?' host || has_byte b'#' host
    then some with_path
    else (if has_byte b'@' host
        then some with_credentials
        else (if has_byte b'*' host && bad_rest (strip_prefix (bytes "*.") host)
            then some misplaced_star
            else none))

abbrev pub scheme_error : Option (Text × Text) → Option OriginError
scheme_error none = some not_an_origin
scheme_error (some (scheme, host)) =
    if eq_bytes scheme [] || eq_bytes host []
    then some not_an_origin
    else (if eq_bytes scheme (bytes "http") || eq_bytes scheme (bytes "https")
        then host_error host
        else some other_scheme)

-- `ValidateOrigin`
unfoldable pub validate_origin : Text → Option OriginError
validate_origin o =
    if eq_bytes o []
    then some empty_entry
    else (if eq_bytes o star || equal_fold o (bytes "null")
        then none
        else scheme_error (cut o (bytes "://")))

unfoldable pub validate_origins : List Text → Option OriginError
validate_origins [] = none
validate_origins (o ∷ os) =
    let rest = validate_origins os in
    if is_some (validate_origin o) then validate_origin o else rest

pub data CorsError : Type 0 where
  star_methods star_expose star_origin : CorsError
  bad_origin : OriginError → CorsError

abbrev pub origin_error : Option OriginError → Option CorsError
origin_error none = none
origin_error (some x) = some (bad_origin x)

-- `Validate`
unfoldable pub validate : CorsConfig → Option CorsError
validate cfg =
    if cfg.allow_credentials && has_entry star cfg.allowed_methods
    then some star_methods
    else (if cfg.allow_credentials && has_entry star cfg.expose_headers
        then some star_expose
        else (if cfg.allow_credentials && allows_any cfg.allowed_origins
            then some star_origin
            else origin_error (validate_origins cfg.allowed_origins)))

-- `wildcard`
pub record Wildcard : Type 0 where
  pub prefix : Text
  pub suffix : Text

-- `match`
unfoldable pub matches : Wildcard → Text → Bool
matches w origin =
    ltb (length w.prefix + length w.suffix) (length origin)
    && has_prefix origin w.prefix
    && has_suffix origin w.suffix

-- `policy`; a list of names stands for its join by ", ".
pub record Policy : Type 0 where
  pub enabled : Bool
  pub allow_all : Bool
  pub exact : List Text
  pub wildcards : List Wildcard
  pub credentials : Bool
  pub private_network : Bool
  pub methods : List Text
  pub headers : List Text
  pub headers_any : Bool
  pub expose : List Text
  pub max_age : Option ℕ

-- `o[:i+len("://")]` and `o[i+len("://*"):]` at the first "://*."
abbrev pub wildcard_of : Text → Text → Wildcard
wildcard_of before after = record { prefix = before ++ bytes "://"; suffix = bytes "." ++ after }

abbrev pub add_exact : Text → Policy → Policy
add_exact o p = record p { exact = o ∷ p.exact }

abbrev pub add_pattern : Text → Option (Text × Text) → Policy → Policy
add_pattern o none p = add_exact o p
add_pattern o (some (before, after)) p = record p {
  wildcards = p.wildcards ++ wildcard_of before after ∷ [];
}

-- One entry of `allowed_origins`, already in lower case.
abbrev pub add_origin : Text → Policy → Policy
add_origin o p =
    if eq_bytes o star
    then record p { allow_all = true }
    else add_pattern o (cut o (bytes "://*.")) p

-- The first loop of `newPolicy`.
unfoldable pub add_origins : List Text → Policy → Policy
add_origins [] p = p
add_origins (o ∷ os) p = add_origins os (add_origin (to_lower o) p)

abbrev pub is_token_byte : ℕ → Bool
is_token_byte c =
    (leb 48 c && leb c 57)
    || (leb 65 c && leb c 90)
    || (leb 97 c && leb c 122)
    || has_byte c (bytes "!#$%&'*+-.^_`|~")

unfoldable pub is_token : Text → Bool
is_token [] = true
is_token (c ∷ s) = is_token_byte c && is_token s

unfoldable pub capitalise : Bool → Text → Text
capitalise start [] = []
capitalise start (c ∷ s) = (if start then upper_byte c else lower_byte c) ∷ capitalise (c == b'-') s

-- `http.CanonicalHeaderKey`: what is no token stays.
abbrev pub canonical_header_key : Text → Text
canonical_header_key s = if is_token s then capitalise true s else s

unfoldable pub has_fold : Text → List Text → Bool
has_fold v [] = false
has_fold v (t ∷ ts) = equal_fold t v || has_fold v ts

-- `joinHeaderList`, before the join.
unfoldable pub join_header_list : (Text → Text) → List Text → List Text → List Text
join_header_list canon out [] = out
join_header_list canon out (v ∷ extra) =
    join_header_list canon (if has_fold (canon v) out then out else out ++ canon v ∷ []) extra

abbrev pub or_default : List Text → List Text → List Text
or_default [] default = default
or_default (m ∷ ms) default = m ∷ ms

-- `len(cfg.AllowedHeaders) == 1 && cfg.AllowedHeaders[0] == "*"`
abbrev pub is_any : List Text → Bool
is_any [] = false
is_any (h ∷ []) = eq_bytes h star
is_any (h ∷ h' ∷ hs) = false

-- `time.Second`
abbrev pub second : ℕ
second = 1000000000

abbrev pub age_of : ℤ → Option ℕ
age_of (negsuc n) = none
age_of (pos n) = if n == 0 then some 600 else some (n / second)

abbrev pub empty_policy : CorsConfig → Policy
empty_policy cfg = record {
  enabled = ltb 0 (length cfg.allowed_origins);
  allow_all = false;
  exact = [];
  wildcards = [];
  credentials = cfg.allow_credentials;
  private_network = cfg.allow_private_network;
  methods = join_header_list to_upper [] (or_default cfg.allowed_methods default_methods);
  headers =
      if is_any cfg.allowed_headers
      then []
      else join_header_list canonical_header_key default_headers cfg.allowed_headers;
  headers_any = is_any cfg.allowed_headers;
  expose = join_header_list canonical_header_key default_expose cfg.expose_headers;
  max_age = age_of cfg.max_age;
}

-- `newPolicy`
unfoldable pub new_policy : CorsConfig → Policy
new_policy cfg = add_origins cfg.allowed_origins (empty_policy cfg)

unfoldable pub any_matches : List Wildcard → Text → Bool
any_matches [] o = false
any_matches (w ∷ ws) o = matches w o || any_matches ws o

-- `originAllowed`
unfoldable pub origin_allowed : Policy → Text → Bool
origin_allowed p origin =
    p.allow_all || has_entry (to_lower origin) p.exact || any_matches p.wildcards (to_lower origin)

-- `allowOriginValue`
abbrev pub allow_origin_value : Policy → Text → Text
allow_origin_value p origin = if p.allow_all && not p.credentials then star else origin

-- What a header of a response holds: a text, a joined list, or a number.
pub data HeaderValue : Type 0 where
  one : Text → HeaderValue
  joined : List Text → HeaderValue
  seconds : ℕ → HeaderValue

abbrev pub Header : Type 0
Header = String × HeaderValue

abbrev pub when_set : Bool → Header → List Header
when_set true h = h ∷ []
when_set false h = []

-- A request as the handler reads it; a header that is missing is empty.
pub record CorsRequest : Type 0 where
  pub is_options : Bool
  pub origin : Text
  pub request_method : Text
  pub request_headers : Text
  pub request_private_network : Text

-- How a request is answered: passed on with headers that are set before, or answered with 204.
pub data Served : Type 0 where
  passed_on answered : List Header → Served

abbrev pub is_named : Text → Bool
is_named s = not (eq_bytes s [])

abbrev pub age_header : Option ℕ → List Header
age_header none = []
age_header (some n) = ("Access-Control-Max-Age", seconds n) ∷ []

abbrev pub requested_headers : Policy → CorsRequest → List Header
requested_headers p r =
    if p.headers_any
    then when_set (is_named r.request_headers)
        ("Access-Control-Allow-Headers", one r.request_headers)
    else ("Access-Control-Allow-Headers", joined p.headers) ∷ []

abbrev pub credentials_header : Policy → List Header
credentials_header p =
    when_set p.credentials ("Access-Control-Allow-Credentials", one (bytes "true"))

-- What an allowed preflight is told beside Vary.
abbrev pub preflight_grant : Policy → CorsRequest → List Header
preflight_grant p r =
    ("Access-Control-Allow-Origin", one (allow_origin_value p r.origin))
      ∷ ("Access-Control-Allow-Methods", joined p.methods)
      ∷ requested_headers p r
    ++ credentials_header p
    ++ age_header p.max_age
    ++ when_set (p.private_network && eq_bytes r.request_private_network (bytes "true"))
        ("Access-Control-Allow-Private-Network", one (bytes "true"))

-- `preflight`
unfoldable pub preflight : Policy → CorsRequest → List Header
preflight p r =
    ("Vary", one (bytes "Origin"))
    ∷ ("Vary", one (bytes "Access-Control-Request-Method"))
    ∷ ("Vary", one (bytes "Access-Control-Request-Headers"))
    ∷ (if is_named r.origin && origin_allowed p r.origin then preflight_grant p r else [])

-- What an allowed request is told beside Vary.
abbrev pub actual_grant : Policy → CorsRequest → List Header
actual_grant p r =
    ("Access-Control-Allow-Origin", one (allow_origin_value p r.origin)) ∷ credentials_header p
    ++ ("Access-Control-Expose-Headers", joined p.expose) ∷ []

-- The headers of an actual request.
unfoldable pub actual : Policy → CorsRequest → List Header
actual p r =
    ("Vary", one (bytes "Origin"))
    ∷ (if is_named r.origin && origin_allowed p r.origin then actual_grant p r else [])

-- `ServeHTTP`
unfoldable pub serve : Policy → CorsRequest → Served
serve p r =
    if not p.enabled
    then passed_on []
    else (if r.is_options && is_named r.request_method
        then answered (preflight p r)
        else passed_on (actual p r))
