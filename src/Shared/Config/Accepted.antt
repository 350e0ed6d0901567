-- ===== src/Shared/Config/Accepted.antt =====
-- crates/rv2-shared/src/config.rs: what a configuration that was read promises.
use rust_v.Prelude.{
  ℕ, ◌-◌, ◌^◌, ◌≤◌, String, ◌≡◌, refl, true, false, ◌||◌, Option, none, some, List, any, All,
  Result, ok, err, bind-ok, ok-injective, subst, inl, inr, arith, Bool-cases, Option-cases,
}
use rust_v.Prelude.Text.{str_eq, is_empty, trim}
use rust_v.Prelude.Text.Entries.{entries, IsEntry, entries-All}
use rust_v.Prelude.Text.Search.{begins_with, trim_end_matches}
use rust_v.Prelude.Text.Unsigned.{IntError, parse_unsigned, parse_unsigned-le}
use rust_v.Shared.Config.{
  GoogleOauthConfig, ServerConfig, required_in, validate_url, parsed, checked_origins, paired,
  filled, required, optional, required_url, from_env,
}

-- What the text of a required variable is: set, and not blank.
pub record IsRequired (env : String → Option String) (name value : String) : Type 0 where
  pub variable : String
  pub set : env name ≡ some variable
  pub trimmed : trim variable ≡ value
  pub inhabited : is_empty value ≡ false

-- What a URL is that was read from a text: the text begins with a scheme, and the slashes at its end
-- are cut.
pub record IsUrl (text url : String) : Type 0 where
  pub scheme : (begins_with "http://" text || begins_with "https://" text) ≡ true
  pub cut : url ≡ trim_end_matches b'/' text

required_in-ok :
    (env : String → Option String) (name value : String)
    → required env name ≡ ok value
    → IsRequired env name value
unfolding required required_in
required_in-ok env name value h = elim (Option-cases (env name)) [
  | inl unset ↦ absurd (ground arith)
  | inr (v, set) ↦ elim (Bool-cases (is_empty (trim v))) [
    | inl blank ↦ absurd (ground arith)
    | inr filled ↦
        let e : trim v ≡ value = ground arith in
        record { variable = v; set = set; trimmed = e; inhabited = rw e at filled }
  ]
]

validate_url-ok : (name text url : String) → validate_url name text ≡ ok url → IsUrl text url
unfolding validate_url
validate_url-ok name text url h =
    elim (Bool-cases (begins_with "http://" text || begins_with "https://" text)) [
      | inl scheme ↦ record { scheme = scheme; cut = ground arith }
      | inr other ↦ absurd (ground arith)
    ]

checked_origins-ok :
    (origins checked : List String)
    → checked_origins origins ≡ ok checked
    → (checked ≡ origins) × (any (λ o. str_eq o "*") origins ≡ false)
unfolding checked_origins
checked_origins-ok origins checked h = elim (Bool-cases (any (λ o. str_eq o "*") origins)) [
  | inl star ↦ absurd (ground arith)
  | inr explicit ↦ (ground arith, explicit)
]

parsed-ok : (name : String) (r : Result IntError ℕ) (n : ℕ) → parsed name r ≡ ok n → r ≡ ok n
unfolding parsed
parsed-ok name (ok m) n h = ground arith
parsed-ok name (err e) n h = absurd (ground arith)

-- The identifier and the secret of a provider are both there, or there is no provider.
abbrev pub Together : Option String → Option String → Option GoogleOauthConfig → Type 0
Together id secret none = (id ≡ none) × (secret ≡ none)
Together id secret (some google) =
    (id ≡ some google.client_id) × (secret ≡ some google.client_secret)

paired-ok :
    (id secret : Option String) (google : Option GoogleOauthConfig)
    → paired id secret ≡ ok google
    → Together id secret google
unfolding paired
paired-ok none none none h = (refl, refl)
paired-ok none none (some g) h = absurd (ground arith)
paired-ok (some i) (some s) none h = absurd (ground arith)
paired-ok (some i) (some s) (some g) h = (ground arith, ground arith)
paired-ok none (some s) g h = absurd (ground arith)
paired-ok (some i) none g h = absurd (ground arith)

required_url-ok :
    (env : String → Option String) (name url : String)
    → required_url env name ≡ ok url
    → (text : String) × IsRequired env name text × IsUrl text url
unfolding required_url
required_url-ok env name url h =
    let (text, e, k) = bind-ok (required env name) h in
    (text, required_in-ok env name text e, validate_url-ok name text url k)

pub record IsAccepted (env : String → Option String) (config : ServerConfig) : Type 0 where
  pub core :
      (text : String) × IsRequired env "ALLSOURCE_CORE_URL" text
      × IsUrl text config.allsource_core_url
  pub query :
      (text : String) × IsRequired env "ALLSOURCE_QUERY_URL" text
      × IsUrl text config.allsource_query_url
  pub key : IsRequired env "ALLSOURCE_API_KEY" config.allsource_api_key
  pub secret : IsRequired env "JWT_SECRET" config.jwt_secret
  pub auth : IsUrl (optional env "AUTH_BASE_URL" "http://localhost:4400/auth") config.auth_base_url
  pub origins : All IsEntry config.cors_origins
  pub no_star : any (λ o. str_eq o "*") config.cors_origins ≡ false
  pub port :
      (n : ℕ) × (parse_unsigned (2 ^ 16 - 1) (optional env "PORT" "4400") ≡ ok n) × (n ≤ 2 ^ 16 - 1)
  pub hops : config.trusted_proxy_hops ≤ 2 ^ 64 - 1
  pub google :
      Together
        (filled (env "GOOGLE_CLIENT_ID"))
        (filled (env "GOOGLE_CLIENT_SECRET"))
        config.google_oauth

-- Every configuration that `from_env` returns: the addresses of both AllSource services, the key and
-- the secret come from their own variables, which are set and not blank; each URL was read with a
-- scheme; no origin of CORS is `*`, and none is blank or holds a comma; the port and the trusted hops
-- fit their types; and Google's identifier and secret are both there, or neither is.
pub from_env-IsAccepted :
    (env : String → Option String) (config : ServerConfig)
    → from_env env ≡ ok config
    → IsAccepted env config
unfolding from_env
from_env-IsAccepted env config accepted =
    let (core, e1, h1) = bind-ok (required_url env "ALLSOURCE_CORE_URL") accepted in
    let (query, e2, h2) = bind-ok (required_url env "ALLSOURCE_QUERY_URL") h1 in
    let port_text = optional env "PORT" "4400" in
    let hops_text = optional env "TRUSTED_PROXY_HOPS" "0" in
    let origin_list =
      entries (optional env "CORS_ORIGINS" "http://localhost:4401,http://localhost:4402") in
    let (port, e3, h3) = bind-ok (parsed "PORT" (parse_unsigned (2 ^ 16 - 1) port_text)) h2 in
    let (origins, e4, h4) = bind-ok (checked_origins origin_list) h3 in
    let (hops, e5, h5) =
      bind-ok (parsed "TRUSTED_PROXY_HOPS" (parse_unsigned (2 ^ 64 - 1) hops_text)) h4 in
    let (google, e6, h6) =
      bind-ok (paired (filled (env "GOOGLE_CLIENT_ID")) (filled (env "GOOGLE_CLIENT_SECRET"))) h5 in
    let (key, e7, h7) = bind-ok (required env "ALLSOURCE_API_KEY") h6 in
    let (secret, e8, h8) = bind-ok (required env "JWT_SECRET") h7 in
    let (auth, e9, h9) =
      bind-ok
        (validate_url "AUTH_BASE_URL" (optional env "AUTH_BASE_URL" "http://localhost:4400/auth"))
        h8 in
    let port_ok = parsed-ok "PORT" (parse_unsigned (2 ^ 16 - 1) port_text) port e3 in
    let hops_ok = parsed-ok "TRUSTED_PROXY_HOPS" (parse_unsigned (2 ^ 64 - 1) hops_text) hops e5 in
    let (same, explicit) = checked_origins-ok origin_list origins e4 in
    subst (λ (c : ServerConfig). IsAccepted env c) (ok-injective h9)
      (record {
        core = required_url-ok env "ALLSOURCE_CORE_URL" core e1;
        query = required_url-ok env "ALLSOURCE_QUERY_URL" query e2;
        key = required_in-ok env "ALLSOURCE_API_KEY" key e7;
        secret = required_in-ok env "JWT_SECRET" secret e8;
        auth =
            validate_url-ok "AUTH_BASE_URL"
              (optional env "AUTH_BASE_URL" "http://localhost:4400/auth") auth e9;
        origins = rw same (
            entries-All
              (optional env "CORS_ORIGINS" "http://localhost:4401,http://localhost:4402"));
        no_star = rw same explicit;
        port = (port, port_ok, parse_unsigned-le (2 ^ 16 - 1) port port_text port_ok);
        hops = parse_unsigned-le (2 ^ 64 - 1) hops hops_text hops_ok;
        google =
            paired-ok (filled (env "GOOGLE_CLIENT_ID")) (filled (env "GOOGLE_CLIENT_SECRET")) google
              e6;
      })
