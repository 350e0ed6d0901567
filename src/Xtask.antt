-- ===== src/Xtask.antt =====
-- tooling/xtask/src/discovery.rs: what may leave the repository in a release of the public sites.
pub mod Encode
pub mod Origin
pub mod Html
pub mod Assets
pub mod Sitemap
pub mod Release
pub mod App
pub mod IndexNow
use rust_v.Prelude.{String, Result}

-- What a command of the tool stops with. The sources format these into texts.
pub data Refusal : Type 0 where
  missing : (name : String) → Refusal
  bad_product_name : Refusal
  bad_product_summary : Refusal
  bad_date_shape : Refusal
  bad_month_or_day : Refusal
  bad_runtime : Refusal
  bad_google_file : Refusal
  not_public_origin : (name : String) → Refusal
  not_public_asset : (name : String) → Refusal
  no_title : Refusal
  unclosed_title : Refusal
  client_handler : Refusal
  still_executable : Refusal
  template_placeholder : (placeholder : String) → Refusal
  forbidden_origin : (origin : String) → Refusal
  starter_identity : Refusal
  missing_identity : Refusal
  inline_script : Refusal
  no_output : Refusal
  no_html : Refusal
  no_noindex : Refusal
  not_compiled : (identity : String) → Refusal
  no_discovery_record : Refusal
  no_root_route : Refusal
  no_summary : Refusal
  key_unreadable : Refusal
  not_requested : Refusal
  bad_status : (status : String) → Refusal

abbrev pub Checked {ℓ} : Type ℓ → Type ℓ
Checked A = Result Refusal A
