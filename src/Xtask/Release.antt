-- ===== src/Xtask/Release.antt =====
-- tooling/xtask/src/discovery.rs: `stage`, which makes a release of the public pages.
pub mod Pages
pub mod Routes
use Prim.Native.String
use rust_v.Prelude.{
  ℕ, ◌+◌, String, Bool, true, false, not, ◌&&◌, ◌||◌, Option, none, some, List, [], ◌∷◌, ◌++◌, map,
  any, filter, ok, err, ◌>>=◌, ltb, ◌==◌, if◌then◌else◌,
}
use rust_v.Prelude.Sorted.{sorted_set}
use rust_v.Prelude.Text.{str_eq, split}
use rust_v.Prelude.Text.Order.{text_lt}
use rust_v.Prelude.Text.Search.{contains, ends_with}
use rust_v.Xtask.{
  Refusal, no_output, no_html, no_discovery_record, no_root_route, no_summary, Checked,
}
use rust_v.Xtask.Encode.{bytes}
use rust_v.Xtask.Origin.{Runtime, static, hydrate, DiscoveryConfig}
use rust_v.Xtask.Html.{strip_runtime, externalize_runtime, assert_release_html, Scripts}
use rust_v.Xtask.Sitemap.{discovery_files}
use rust_v.Xtask.Assets.{Asset, prune_unreferenced_assets}

-- A file with the extension `html`: the directories of its path, its name without the extension, and
-- its text.
pub record Page : Type 0 where
  pub parents : List String
  pub stem : String
  pub html : String

-- `original.contains("application/ld+json")`
abbrev pub described : String → Checked (Unit {0})
described original =
    if contains "application/ld+json" original then ok tt else err no_discovery_record

module _ (short_hash : String → String) where
  abbrev pub transform : Runtime → String → Scripts → Checked (String × Scripts)
  transform static original scripts = do html ← strip_runtime original; ok (html, scripts)
  transform hydrate original scripts = ok (externalize_runtime short_hash original scripts)

  -- What the loop of `stage` does with a page.
  unfoldable pub stage_page : DiscoveryConfig → String → Scripts → Checked (String × Scripts)
  unfolding strip_runtime externalize_runtime assert_release_html
  stage_page config original scripts = do
    _ ← described original
    staged ← transform config.runtime original scripts
    _ ← assert_release_html config staged.0
    ok staged

abbrev pub slashed : List String → String
slashed [] = ""
slashed (part ∷ []) = part
slashed (part ∷ next ∷ parts) = String.◌++◌ part (String.◌++◌ "/" (slashed (next ∷ parts)))

abbrev pub is_nil {ℓ} : {A : Type ℓ} → List A → Bool
is_nil [] = true
is_nil (x ∷ xs) = false

abbrev pub is_index : Page → Bool
is_index page = is_nil page.parents && str_eq page.stem "index"

unfoldable pub route_for_html : Page → String
route_for_html page =
    if is_index page
    then "/"
    else if str_eq page.stem "index"
    then String.◌++◌ "/" (slashed page.parents)
    else String.◌++◌ "/" (slashed (page.parents ++ (page.stem ∷ [])))

pub record Staged : Type 0 where
  pub pages : List Page
  pub scripts : Scripts
  pub routes : List String

module _ (short_hash : String → String) (config : DiscoveryConfig) where
  abbrev next_page : Page → String → Staged → Staged
  next_page page html staged = record {
    pages = record page { html = html } ∷ staged.pages;
    scripts = staged.scripts;
    routes = route_for_html page ∷ staged.routes;
  }

  -- The loop over the pages, which stops at the first that is refused.
  unfoldable pub stage_pages : List Page → Scripts → Checked Staged
  unfolding stage_page route_for_html
  stage_pages [] scripts = ok (record { pages = []; scripts = scripts; routes = [] })
  stage_pages (page ∷ pages) scripts = do
    first ← stage_page short_hash config page.html scripts
    rest ← stage_pages pages first.1
    ok (next_page page first.0 rest)

abbrev pub last_or : String → List String → String
last_or part [] = part
last_or part (next ∷ parts) = last_or next parts

-- `path.extension() == Some(extension)`: a dot that begins the name begins no extension.
unfoldable pub has_extension : String → String → Bool
has_extension extension path =
    let name = last_or "" (split b'/' path) in
    ends_with (String.◌++◌ "." extension) name
    && ltb (String.count extension + 1) (String.count name)

abbrev pub is_script : Asset → Bool
is_script asset = has_extension "js" asset.name || has_extension "wasm" asset.name

abbrev pub remove_script_assets : List Asset → List Asset
remove_script_assets assets = filter (λ asset. not (is_script asset)) assets

-- `fs::write` of a runtime script below `assets`.
abbrev pub write_scripts : Scripts → List Asset → List Asset
write_scripts [] assets = assets
write_scripts ((name, source) ∷ scripts) assets =
    record { name = name; contents = bytes source }
    ∷ filter (λ (asset : Asset). not (str_eq asset.name name)) (write_scripts scripts assets)

abbrev pub assets_under : Runtime → List Asset → List Asset
assets_under static assets = remove_script_assets assets
assets_under hydrate assets = assets

pub record Release : Type 0 where
  pub pages : List Page
  pub assets : List Asset
  pub routes : List String
  pub files : List (String × String)

abbrev pub check : Bool → Refusal → Checked (Unit {0})
check b refusal = if b then ok tt else err refusal

abbrev pub sources_of : List Page → List (List ℕ)
sources_of pages = map (λ (page : Page). bytes page.html) pages

abbrev release_of : (String → String) → DiscoveryConfig → List Asset → Staged → Release
release_of short_hash config assets staged =
    let routes = sorted_set text_lt staged.routes in
    record {
      pages = staged.pages;
      assets =
          prune_unreferenced_assets
            (write_scripts staged.scripts (assets_under config.runtime assets))
            (sources_of staged.pages);
      routes = routes;
      files = discovery_files short_hash config routes;
    }

-- `stage`, from the files that were built: what it writes.
unfoldable pub stage :
    (String → String) → DiscoveryConfig → List Page → List Asset → Checked Release
unfolding stage_pages discovery_files
stage short_hash config pages assets = do
  _ ← check (any is_index pages) no_output
  _ ← check (not (is_nil pages)) no_html
  staged ← stage_pages short_hash config pages []
  _ ← check (any (λ r. str_eq r "/") (sorted_set text_lt staged.routes)) no_root_route
  _ ←
      check (any (λ p. is_index p && contains config.product_summary p.html) staged.pages)
        no_summary
  ok (release_of short_hash config assets staged)
