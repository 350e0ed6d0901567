-- ===== src/Api/Auth.antt =====
-- apps/api/src/infrastructure/auth/middleware.rs: from the headers of a request to its principal.
pub mod Token
pub mod Principal
use Prim.Native.String
use rust_v.Prelude.{
  ℕ, String, Bool, Option, none, some, List, [], ◌∷◌, Result, ok, err, ◌>>=◌, if◌then◌else◌,
}
use rust_v.Prelude.Opt.{unwrap_or}
use rust_v.Prelude.Text.{str_eq, is_empty, trim, split, split_once}
use rust_v.Prelude.Text.Search.{strip_prefix}
use rust_v.Shared.Roles.{AuthUser, parse_set}
use rust_v.Api.{ApiError, unauthenticated, internal}

-- The two headers that are read, when they are texts.
pub record Headers : Type 0 where
  pub authorization : Option String
  pub cookie : Option String

-- `filter(|v| !v.is_empty())`
abbrev pub filled : Option String → Option String
filled none = none
filled (some v) = if is_empty v then none else some v

abbrev pub trimmed : Option String → Option String
trimmed none = none
trimmed (some v) = some (trim v)

abbrev pub stripped : Option String → Option String
stripped none = none
stripped (some v) = strip_prefix "Bearer " v

unfoldable pub bearer : Option String → Option String
bearer authorization = filled (trimmed (stripped authorization))

abbrev pub named_or : String → Option (String × String) → Option String → Option String
named_or cookie_name none later = later
named_or cookie_name (some (name, value)) later =
    if str_eq name cookie_name then some value else later

-- The first pair with the name; a part without `=` is no pair.
unfoldable pub find_cookie : String → List String → Option String
find_cookie cookie_name [] = none
find_cookie cookie_name (part ∷ parts) =
    named_or cookie_name (split_once b'=' (trim part)) (find_cookie cookie_name parts)

abbrev pub cookie_value : String → Option String → Option String
cookie_value cookie_name none = none
cookie_value cookie_name (some header) = find_cookie cookie_name (split b';' header)

abbrev pub or_cookie : Option String → Option String → Option String
or_cookie (some token) cookie = some token
or_cookie none cookie = cookie

unfoldable pub extract_token : Headers → String → Option String
unfolding bearer find_cookie
extract_token headers cookie_name =
    or_cookie (bearer headers.authorization) (filled (cookie_value cookie_name headers.cookie))

-- What better-auth knows of a user, which it stores under an identifier that is a text.
pub record StoredUser : Type 0 where
  pub id : String
  pub email : Option String
  pub role : Option String

-- `uuid`'s parser and its name-based identifiers, and better-auth's sessions and users. An error of
-- either is a text; a session is the identifier of its user.
pub record Backend : Type 0 where
  pub parse_uuid : String → Option ℕ
  pub new_v5 : String → ℕ
  pub get_session : String → Result String (Option String)
  pub get_user_by_id : String → Result String (Option StoredUser)

module _ (SdkError : Type 0) (backend : Backend) where
  unfoldable pub domain_user_id : String → ℕ
  domain_user_id id = unwrap_or (backend.parse_uuid id) (backend.new_v5 id)

  -- An error of the backend is internal; a value that is not there is a missing authentication.
  abbrev pub found : {A : Type 0} → Result String (Option A) → Result (ApiError SdkError) A
  found (err e) = err (internal e)
  found (ok none) = err unauthenticated
  found (ok (some a)) = ok a

  abbrev pub present : Option String → Result (ApiError SdkError) String
  present none = err unauthenticated
  present (some token) = ok token

  unfoldable pub principal_of : StoredUser → AuthUser
  unfolding domain_user_id parse_set
  principal_of user = record {
    id = domain_user_id user.id;
    email = unwrap_or user.email "";
    roles = parse_set (unwrap_or user.role "");
  }

  unfoldable pub from_request_parts : Headers → String → Result (ApiError SdkError) AuthUser
  unfolding extract_token principal_of
  from_request_parts headers cookie_name = do
    token ← present (extract_token headers cookie_name)
    user_id ← found (backend.get_session token)
    user ← found (backend.get_user_by_id user_id)
    ok (principal_of user)
