-- ===== src/Xtask/Origin.antt =====
-- tooling/xtask/src/discovery.rs: the public origins, dates and names that a release is built with.
pub mod Public
use Prim.Native.String
use rust_v.Prelude.{
  ℕ, ◌+◌, ◌*◌, ◌-◌, ◌≤◌, ◌<◌, String, Bool, true, false, not, ◌&&◌, ◌||◌, Option, none, some, List,
  [], ◌∷◌, any, ok, err, ◌>>=◌, ltb, leb, ◌==◌, if◌then◌else◌,
}
use rust_v.Prelude.Text.{str_eq, is_empty, is_whitespace, contains_char, trim}
use rust_v.Prelude.Text.Search.{strip_prefix, begins_with, ends_with, trim_end_matches, any_char}
use rust_v.Xtask.{
  Refusal, missing, bad_product_name, bad_product_summary, bad_date_shape, bad_month_or_day,
  bad_runtime, bad_google_file, not_public_origin, not_public_asset, Checked,
}
use rust_v.Xtask.Encode.{bytes, is_digit, is_alphanumeric}

pub data Runtime : Type 0 where
  static hydrate : Runtime

pub record DiscoveryConfig : Type 0 where
  pub site_url : String
  pub app_url : String
  pub product_name : String
  pub product_summary : String
  pub social_image_url : String
  pub last_modified : String
  pub runtime : Runtime
  pub google_verification_file : Option String

-- `value.contains(['?', '#'])`
unfoldable pub has_query : String → Bool
has_query value = any_char (λ c. c == b'?' || c == b'#') value

unfoldable pub is_private : String → Bool
is_private authority =
    is_empty authority
    || contains_char b'/' authority
    || str_eq authority "localhost"
    || begins_with "localhost:" authority
    || begins_with "127." authority
    || ends_with ".invalid" authority
    || ends_with ".example" authority

checked_authority : String → String → Checked String
checked_authority name authority =
    if is_private authority
    then err (not_public_origin name)
    else ok (String.◌++◌ "https://" authority)

-- The prefix that is tested is the prefix that is stripped.
origin_after : String → String → Option String → Checked String
unfolding checked_authority has_query
origin_after name value none = err (not_public_origin name)
origin_after name value (some rest) =
    if any_char is_whitespace value || has_query value
    then err (not_public_origin name)
    else checked_authority name (trim_end_matches b'/' rest)

unfoldable pub parse_public_origin : String → String → Checked String
unfolding origin_after
parse_public_origin name value = origin_after name value (strip_prefix "https://" value)

unfoldable pub parse_public_asset_url : String → String → String → Checked String
unfolding has_query
parse_public_asset_url name origin value =
    if not (begins_with (String.◌++◌ origin "/") value)
      || String.len value == String.len (String.◌++◌ origin "/")
      || any_char is_whitespace value
      || has_query value
    then err (not_public_asset name)
    else ok value

abbrev two_digits : ℕ → ℕ → ℕ
two_digits a b = (a - b'0') * 10 + (b - b'0')

abbrev month_and_day : ℕ → ℕ → Checked (Unit {0})
month_and_day month day =
    if (leb 1 month && leb month 12) && (leb 1 day && leb day 31)
    then ok tt
    else err bad_month_or_day

-- The text's ten bytes; two digits always parse as a `u8`.
date_of_bytes : List ℕ → Checked (Unit {0})
date_of_bytes (a ∷ b ∷ c ∷ d ∷ e ∷ f ∷ g ∷ h ∷ i ∷ j ∷ []) =
    if (e == b'-' && h == b'-')
      && (is_digit a
          && is_digit b
          && is_digit c
          && is_digit d
          && is_digit f
          && is_digit g
          && is_digit i
          && is_digit j)
    then month_and_day (two_digits f g) (two_digits i j)
    else err bad_date_shape
date_of_bytes _ = err bad_date_shape

unfoldable pub validate_date : String → Checked (Unit {0})
unfolding date_of_bytes
validate_date value = date_of_bytes (bytes value)

abbrev is_google_byte : ℕ → Bool
is_google_byte b = is_alphanumeric b || b == b'-' || b == b'_' || b == b'.'

unfoldable pub validate_google_file : String → Checked String
validate_google_file value =
    if begins_with "google" value
      && ends_with ".html" value
      && not (any (λ b. not (is_google_byte b)) (bytes value))
    then ok value
    else err bad_google_file

-- `value.len()` counts bytes.
unfoldable pub trimmed_between : ℕ → ℕ → Refusal → String → Checked String
trimmed_between lo hi refusal value =
    if not (str_eq (trim value) value)
      || not (leb lo (String.len value) && leb (String.len value) hi)
    then err refusal
    else ok value

-- `std::env::var`: a variable that is unset, or is no text, is none.
module _ (env : String → Option String) where
  unfoldable pub required : String → Checked String
  required name = elim (env name) [ none ↦ err (missing name) | some value ↦ ok value ]

  unfoldable pub product_name : Checked String
  unfolding required trimmed_between
  product_name = do
    value ← required "PUBLIC_PRODUCT_NAME"
    trimmed_between 2 80 bad_product_name value

  product_summary : Checked String
  unfolding required trimmed_between
  product_summary = do
    value ← required "PUBLIC_PRODUCT_SUMMARY"
    trimmed_between 40 320 bad_product_summary value

  runtime_of : String → Checked Runtime
  runtime_of value =
      if str_eq value "static"
      then ok static
      else if str_eq value "hydrate"
      then ok hydrate
      else err bad_runtime

  google_file : Option String → Checked (Option String)
  unfolding validate_google_file
  google_file none = ok none
  google_file (some value) = do file ← validate_google_file value; ok (some file)

  unfoldable pub public_origin : String → Checked String
  unfolding required parse_public_origin
  public_origin name = do value ← required name; parse_public_origin name value

  public_asset_url : String → String → Checked String
  unfolding required parse_public_asset_url
  public_asset_url name origin = do value ← required name; parse_public_asset_url name origin value

  -- `DiscoveryConfig::from_env`
  unfoldable pub from_env : Checked DiscoveryConfig
  unfolding product_name product_summary runtime_of google_file public_origin public_asset_url
  from_env = do
    name ← product_name
    summary ← product_summary
    last_modified ← required "PUBLIC_LAST_MODIFIED"
    _ ← validate_date last_modified
    named_runtime ← required "PUBLIC_DISCOVERY_RUNTIME"
    runtime ← runtime_of named_runtime
    file ← google_file (env "GOOGLE_SITE_VERIFICATION_FILE")
    site_url ← public_origin "PUBLIC_SITE_URL"
    social_image_url ← public_asset_url "PUBLIC_SOCIAL_IMAGE_URL" site_url
    app_url ← public_origin "PUBLIC_APP_URL"
    ok (record {
      site_url = site_url;
      app_url = app_url;
      product_name = name;
      product_summary = summary;
      social_image_url = social_image_url;
      last_modified = last_modified;
      runtime = runtime;
      google_verification_file = file;
    })
