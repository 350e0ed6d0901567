-- ===== src/Tests/Access.antt =====
-- Roles, the configuration and the authentication on concrete inputs.
use Prim.Native.String
use rust_v.Prelude.{
  String, ◌≡◌, refl, Option, none, some, List, [], ◌∷◌, any, All, ok, if◌then◌else◌,
}
use rust_v.Prelude.Sorted.{Ascending}
use rust_v.Prelude.Text.{str_eq, trim, trim_start, trim_end, is_whitespace, split}
use rust_v.Prelude.Text.Lowercase.{to_ascii_lowercase}
use rust_v.Prelude.Text.Entries.{entries}
use rust_v.Prelude.Text.Search.{strip_prefix, begins_with, trim_end_matches}
use rust_v.Prelude.Text.Unsigned.{digits, parse_unsigned}
use rust_v.Shared.Roles.{Role, role_lt, parse_set, render_set, is_admin}
use rust_v.Shared.Roles.Stored.{IsStored, parse_set_roundtrip}
use rust_v.Shared.Roles.Admin.{is_admin_iff}
use rust_v.Shared.Config.{
  ServerConfig, required_in, validate_url, parsed, checked_origins, paired, required, optional,
  required_url, from_env,
}
use rust_v.Shared.Config.Accepted.{IsAccepted, from_env-IsAccepted}
use rust_v.Api.Auth.{Headers, Backend, from_request_parts}
use rust_v.Api.Auth.Principal.{Outcome, from_request_parts_outcome}

abbrev stored_roles : String
stored_roles = " Moderator ,ADMIN,"

parse_set_roundtrip_example :
    Ascending role_lt (parse_set stored_roles)
    × All IsStored (parse_set stored_roles)
    × ((role : Role) × (roles : List Role) × (parse_set stored_roles ≡ role ∷ roles))
    × (parse_set (render_set (parse_set stored_roles)) ≡ parse_set stored_roles)
parse_set_roundtrip_example = parse_set_roundtrip stored_roles

is_admin_iff_example :
    is_admin (record { id = 7; email = "a@b.org"; roles = parse_set stored_roles })
    ≡ any (λ part. str_eq (to_ascii_lowercase part) "admin") (entries stored_roles)
is_admin_iff_example = is_admin_iff 7 "a@b.org" stored_roles

abbrev server_env : String → Option String
server_env name =
    if str_eq name "ALLSOURCE_CORE_URL"
    then some " http://core:3900/ "
    else if str_eq name "ALLSOURCE_QUERY_URL"
    then some "http://query:3902"
    else if str_eq name "ALLSOURCE_API_KEY"
    then some "ask_1"
    else if str_eq name "JWT_SECRET"
    then some "secret"
    else none

abbrev server_config : ServerConfig
server_config = record {
  bind_addr = "0.0.0.0:4400";
  allsource_core_url = "http://core:3900";
  allsource_query_url = "http://query:3902";
  allsource_api_key = "ask_1";
  jwt_secret = "secret";
  auth_base_url = "http://localhost:4400/auth";
  cors_origins = "http://localhost:4401" ∷ "http://localhost:4402" ∷ [];
  trusted_proxy_hops = 0;
  google_oauth = none;
}

from_env_runs : from_env server_env ≡ ok server_config
unfolding from_env required optional required_url required_in validate_url parsed checked_origins
    paired entries trim trim_start trim_end is_whitespace split begins_with strip_prefix
    trim_end_matches digits parse_unsigned
from_env_runs = refl

from_env-IsAccepted_example : IsAccepted server_env server_config
from_env-IsAccepted_example = from_env-IsAccepted server_env server_config from_env_runs

abbrev one_user : Backend
one_user = record {
  parse_uuid = λ id. none;
  new_v5 = λ id. String.count id;
  get_session = λ token. if str_eq token "t" then ok (some "u1") else ok none;
  get_user_by_id = λ id. ok (some (record { id = id; email = none; role = some "admin" }));
}

abbrev cookies : Headers
cookies = record { authorization = none; cookie = some "theme=dark;session=t" }

from_request_parts_outcome_example :
    Outcome
      (Unit {0})
      one_user
      cookies
      "session"
      (from_request_parts (Unit {0}) one_user cookies "session")
from_request_parts_outcome_example =
    from_request_parts_outcome (Unit {0}) one_user cookies "session"
