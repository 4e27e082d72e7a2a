-- ===== src/Access.antt =====
-- internal/api/auth.go and internal/callback/allow.go: who calls, which jobs a caller may read, and
-- which callback URLs are accepted. What `url.Parse` makes of a text is an argument;
-- `equal_fold` folds the case of ASCII letters only, where `strings.EqualFold` folds all.
pub mod Keys
use mathlib.Core.Option
use tenta_cron.Prelude.{
  ℕ, String, str_eq, Bool, true, false, ◌&&◌, ◌||◌, not, Option, none, some, List, [], ◌∷◌,
  if◌then◌else◌, is_some,
}
use tenta_cron.Cors.Bytes.{bytes, equal_fold}
use tenta_cron.Store.Model.{Job}

-- `config.APIKey` as the check reads it; no previous key is the empty text.
pub record ApiKey : Type 0 where
  pub name : String
  pub role : String
  pub key : String
  pub previous_key : String

-- `identity`
pub record Identity : Type 0 where
  pub name : String
  pub role : String

-- `match || previous`
abbrev pub opens : ApiKey → String → Bool
opens k presented =
    str_eq k.key presented || (not (str_eq k.previous_key "") && str_eq k.previous_key presented)

abbrev pub identity_of : ApiKey → Identity
identity_of k = record { name = k.name; role = k.role }

-- The loop of `authenticate`: every key is compared, and the first match is kept.
unfoldable pub authenticate_from : Option Identity → String → List ApiKey → Option Identity
authenticate_from found presented [] = found
authenticate_from found presented (k ∷ ks) =
    authenticate_from
      (if opens k presented && not (is_some found) then some (identity_of k) else found) presented
      ks

-- `authenticate`
unfoldable pub authenticate : String → List ApiKey → Option Identity
authenticate presented ks = authenticate_from none presented ks

-- `admin`
abbrev pub is_admin : Identity → Bool
is_admin id = str_eq id.role "admin"

-- `mayRead`
unfoldable pub may_read : Identity → Job → Bool
may_read id j = is_admin id || str_eq j.client id.name

-- A URL as `Check` reads it.
pub record Url : Type 0 where
  pub scheme : String
  pub has_user : Bool
  pub host : String

pub data CallbackError : Type 0 where
  disabled not_a_url not_https with_user no_host not_listed : CallbackError

unfoldable pub is_allowed : List String → String → Bool
is_allowed [] host = false
is_allowed (h ∷ hs) host = equal_fold (bytes h) (bytes host) || is_allowed hs host

abbrev pub check_url : List String → Option Url → Option CallbackError
check_url allowed none = some not_a_url
check_url allowed (some u) =
    if not (str_eq u.scheme "https")
    then some not_https
    else (if u.has_user
        then some with_user
        else (if str_eq u.host ""
            then some no_host
            else (if is_allowed allowed u.host then none else some not_listed)))

-- `Check`; callbacks are enabled where a host is listed.
unfoldable pub check : List String → Option Url → Option CallbackError
check [] url = some disabled
check (h ∷ hs) url = check_url (h ∷ hs) url
