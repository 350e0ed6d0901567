-- ===== src/Shared/Config.antt =====
-- crates/rv2-shared/src/config.rs: the configuration of the server, from its environment.
pub mod Accepted
use Prim.Native.String
use rust_v.Prelude.{
  ℕ, ◌-◌, ◌^◌, String, Bool, true, false, not, ◌||◌, Option, none, some, List, any, Result, ok, err,
  ◌>>=◌, if◌then◌else◌,
}
use rust_v.Prelude.Text.{str_eq, is_empty, trim}
use rust_v.Prelude.Text.Entries.{entries}
use rust_v.Prelude.Text.Search.{begins_with, trim_end_matches}
use rust_v.Prelude.Text.Unsigned.{IntError, reason_of, parse_unsigned}

pub record GoogleOauthConfig : Type 0 where
  pub client_id : String
  pub client_secret : String

pub record ServerConfig : Type 0 where
  pub bind_addr : String
  pub allsource_core_url : String
  pub allsource_query_url : String
  pub allsource_api_key : String
  pub jwt_secret : String
  pub auth_base_url : String
  pub cors_origins : List String
  pub trusted_proxy_hops : ℕ
  pub google_oauth : Option GoogleOauthConfig

pub data ConfigError : Type 0 where
  missing : (name : String) → ConfigError
  invalid : (name reason : String) → ConfigError

abbrev pub Configured {ℓ} : Type ℓ → Type ℓ
Configured A = Result ConfigError A

unfoldable pub required_in : String → Option String → Configured String
required_in name none = err (missing name)
required_in name (some v) = if is_empty (trim v) then err (missing name) else ok (trim v)

-- A value that is blank is none; another is not trimmed.
abbrev pub or_default : String → Option String → String
or_default default none = default
or_default default (some v) = if is_empty (trim v) then default else v

unfoldable pub validate_url : String → String → Configured String
validate_url name value =
    if not (begins_with "http://" value || begins_with "https://" value)
    then err (
        invalid name
          (String.◌++◌ "must start with http:// or https:// (got `" (String.◌++◌ value "`)")))
    else ok (trim_end_matches b'/' value)

-- `parse` with its error under the variable's name.
unfoldable pub parsed : String → Result IntError ℕ → Configured ℕ
parsed name (ok n) = ok n
parsed name (err e) = err (invalid name (reason_of e))

unfoldable pub checked_origins : List String → Configured (List String)
checked_origins origins =
    if any (λ o. str_eq o "*") origins
    then err (
        invalid "CORS_ORIGINS" "`*` is illegal with credentialed requests; list origins explicitly")
    else ok origins

abbrev pub filled : Option String → Option String
filled none = none
filled (some v) = if is_empty v then none else some v

-- Both values, or none.
unfoldable pub paired : Option String → Option String → Configured (Option GoogleOauthConfig)
paired (some id) (some secret) = ok (some (record { client_id = id; client_secret = secret }))
paired none none = ok none
paired _ _ =
    err
      (invalid "GOOGLE_CLIENT_ID" "GOOGLE_CLIENT_ID and GOOGLE_CLIENT_SECRET must be set together")

-- `std::env::var`, without its error.
module _ (env : String → Option String) where
  unfoldable pub required : String → Configured String
  unfolding required_in
  required name = required_in name (env name)

  unfoldable pub optional : String → String → String
  optional name default = or_default default (env name)

  unfoldable pub required_url : String → Configured String
  unfolding required validate_url
  required_url name = do value ← required name; validate_url name value

  -- `ServerConfig::from_env`, on 64 bits.
  unfoldable pub from_env : Configured ServerConfig
  unfolding required optional required_url validate_url parsed checked_origins paired
  from_env = do
    core ← required_url "ALLSOURCE_CORE_URL"
    query ← required_url "ALLSOURCE_QUERY_URL"
    _ ← parsed "PORT" (parse_unsigned (2 ^ 16 - 1) (optional "PORT" "4400"))
    origins ←
        checked_origins
          (entries (optional "CORS_ORIGINS" "http://localhost:4401,http://localhost:4402"))
    hops ←
        parsed "TRUSTED_PROXY_HOPS"
          (parse_unsigned (2 ^ 64 - 1) (optional "TRUSTED_PROXY_HOPS" "0"))
    google ← paired (filled (env "GOOGLE_CLIENT_ID")) (filled (env "GOOGLE_CLIENT_SECRET"))
    key ← required "ALLSOURCE_API_KEY"
    secret ← required "JWT_SECRET"
    auth ← validate_url "AUTH_BASE_URL" (optional "AUTH_BASE_URL" "http://localhost:4400/auth")
    ok (record {
      bind_addr =
          String.◌++◌ (optional "HOST" "0.0.0.0") (String.◌++◌ ":" (optional "PORT" "4400"));
      allsource_core_url = core;
      allsource_query_url = query;
      allsource_api_key = key;
      jwt_secret = secret;
      auth_base_url = auth;
      cors_origins = origins;
      trusted_proxy_hops = hops;
      google_oauth = google;
    })
