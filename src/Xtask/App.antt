-- ===== src/Xtask/App.antt =====
-- tooling/xtask/src/discovery.rs: `stage_app`, which makes a release of the product's app.
pub mod Bundle
use Prim.Native.String
use rust_v.Prelude.{
  ℕ, String, Bool, true, false, not, ◌||◌, ◌&&◌, Option, none, some, List, [], ◌∷◌, ◌++◌, map, any,
  filter, ok, err, ◌>>=◌, if◌then◌else◌,
}
use rust_v.Prelude.Text.{str_eq}
use rust_v.Prelude.Text.Search.{contains}
use rust_v.Xtask.{
  no_output, no_noindex, inline_script, not_compiled, forbidden_origin, starter_identity, Refusal,
  Checked,
}
use rust_v.Xtask.Encode.{bytes}
use rust_v.Xtask.Origin.{product_name, public_origin}
use rust_v.Xtask.Html.{
  replace_title, externalize_runtime, reject_template_placeholders, local_origins, Scripts,
}
use rust_v.Xtask.Assets.{Asset, in_windows, prune_unreferenced_assets}
use rust_v.Xtask.Release.{check, has_extension, write_scripts}

-- The files that were built: `index.html`, those below `assets`, and the others.
pub record Built : Type 0 where
  pub index : Option String
  pub assets : List Asset
  pub others : List Asset

pub record AppRelease : Type 0 where
  pub index : String
  pub assets : List Asset
  pub others : List Asset
  pub robots : String

abbrev pub files_of : AppRelease → List Asset
files_of release =
    record { name = "index.html"; contents = bytes release.index }
    ∷ (release.assets ++ release.others)

-- `windows(needle.len())`: no needle here is empty.
abbrev pub holds : String → Asset → Bool
holds needle file = in_windows (bytes needle) file.contents

-- `bundle_contains`
abbrev pub bundle_contains : List Asset → String → Bool
bundle_contains files needle = any (holds needle) files

-- `extension_contains`
abbrev pub extension_contains : String → List Asset → String → Bool
extension_contains extension files needle =
    any (λ (file : Asset). has_extension extension file.name && holds needle file) files

-- The first of the texts for which the test is false is refused.
abbrev pub demand : (String → Bool) → (String → Refusal) → List String → Checked (Unit {0})
demand test refusal [] = ok tt
demand test refusal (text ∷ texts) =
    let rest = demand test refusal texts in if test text then rest else err (refusal text)

abbrev is_html : Asset → Bool
is_html file = has_extension "html" file.name

abbrev html_sources : String → List Asset → List (List ℕ)
html_sources index others =
    bytes index ∷ map (λ (file : Asset). file.contents) (filter is_html others)

abbrev pub original_of : Option String → Checked String
original_of none = err no_output
original_of (some original) = ok original

abbrev pub release_of : String → Scripts → Built → AppRelease
release_of html scripts built = record {
  index = html;
  assets =
      prune_unreferenced_assets (write_scripts scripts built.assets)
        (html_sources html built.others);
  others = built.others;
  robots = "User-agent: *\nDisallow: /\n";
}

module _ (short_hash : String → String) (env : String → Option String) where
  unfoldable pub stage_app : Built → Checked AppRelease
  unfolding product_name public_origin externalize_runtime replace_title
  stage_app built = do
    original ← original_of built.index
    site_url ← public_origin env "PUBLIC_SITE_URL"
    api_url ← public_origin env "PUBLIC_API_URL"
    name ← product_name env
    _ ← check (contains "noindex,nofollow,noarchive" original) no_noindex
    let external = externalize_runtime short_hash original []
    html ← replace_title external.0 (String.◌++◌ name " — app")
    _ ← reject_template_placeholders html
    _ ← check (not (contains "<script>" html)) inline_script
    let release = release_of html external.1 built
    _ ←
        demand (extension_contains "wasm" (files_of release)) not_compiled
          (site_url ∷ api_url ∷ name ∷ [])
    _ ←
        demand (λ origin. not (bundle_contains (files_of release) origin)) forbidden_origin
          local_origins
    _ ← check (str_eq name "rust-v2" || not (contains "rust-v2" html)) starter_identity
    ok release
