-- ===== src/Tests/Bundle.antt =====
-- The assets, the app and the encodings of a release on concrete inputs.
use mathlib.Core.List.{Memᴰ}
use rust_v.Prelude.{String, ◌≡◌, refl, ◌↔◌, Option, none, some, List, [], ◌∷◌, ok, if◌then◌else◌}
use rust_v.Prelude.Text.{split, str_eq, trim, trim_start, trim_end, is_whitespace, contains_char}
use rust_v.Prelude.Text.Search.{
  strip_prefix, begins_with, break_at, contains, ends_with, trim_end_matches, any_char,
  replace_char,
}
use rust_v.Xtask.Encode.{utf8, bytes, html_escape}
use rust_v.Xtask.Origin.{
  has_query, is_private, parse_public_origin, required, trimmed_between, product_name,
  public_origin,
}
use rust_v.Xtask.Html.{
  remove_element, replace_loop, replace_exact_scripts, replace_title, externalize_runtime,
  without_html_comments, comment_loop, reject_template_placeholders,
}
use rust_v.Xtask.Assets.{
  Asset, starts_with_bytes, in_windows, contains_bytes, reach_loop, prune_unreferenced_assets,
}
use rust_v.Xtask.Assets.Reach.{Reaches, prune_unreferenced_assets_correct}
use rust_v.Xtask.Release.{has_extension}
use rust_v.Xtask.App.{Built, AppRelease, stage_app}
use rust_v.Xtask.App.Bundle.{IsShipped, stage_app_sound}
use rust_v.Tests.Release.{key_of}

abbrev two_scripts : String
two_scripts = "<script>a</script>b<script>c</script>"

no_script_left : (replace_exact_scripts "<script>" remove_element two_scripts tt).0 ≡ "b"
unfolding replace_exact_scripts replace_loop break_at strip_prefix
no_script_left = refl

abbrev main_js : Asset
main_js = record { name = "main.js"; contents = bytes "import 'part.js'" }

abbrev part_js : Asset
part_js = record { name = "part.js"; contents = bytes "import 'main.js'" }

abbrev old_js : Asset
old_js = record { name = "old.js"; contents = bytes "import 'old.js'" }

abbrev three : List Asset
three = old_js ∷ part_js ∷ main_js ∷ []

-- An asset that only itself names goes; two that name each other stay.
pruned :
    prune_unreferenced_assets three (bytes "<script src='main.js'>" ∷ []) ≡ part_js ∷ main_js ∷ []
unfolding prune_unreferenced_assets reach_loop contains_bytes in_windows starts_with_bytes bytes
    utf8
pruned = refl

prune_unreferenced_assets_correct_example :
    Memᴰ part_js (prune_unreferenced_assets three (bytes "main.js" ∷ []))
    ↔ (Memᴰ part_js three × Reaches (bytes "main.js" ∷ []) three part_js)
prune_unreferenced_assets_correct_example =
    prune_unreferenced_assets_correct three (bytes "main.js" ∷ []) part_js

abbrev acme_env : String → Option String
acme_env name =
    if str_eq name "PUBLIC_SITE_URL"
    then some "https://acme.org"
    else if str_eq name "PUBLIC_API_URL"
    then some "https://api.org/"
    else if str_eq name "PUBLIC_PRODUCT_NAME"
    then some "Acme"
    else none

abbrev app_wasm : Asset
app_wasm = record { name = "app.wasm"; contents = bytes "Acme https://acme.org https://api.org" }

abbrev built_app : Built
built_app = record {
  index = some "<title>App</title>noindex,nofollow,noarchive app.wasm";
  assets = app_wasm ∷ [];
  others = [];
}

abbrev acme_app : AppRelease
acme_app = record {
  index = "<title>Acme — app</title>noindex,nofollow,noarchive app.wasm";
  assets = app_wasm ∷ [];
  others = [];
  robots = "User-agent: *\nDisallow: /\n";
}

parse_runs : parse_public_origin "X" "https://api.org/" ≡ ok "https://api.org"
unfolding parse_public_origin strip_prefix any_char is_whitespace has_query is_private contains_char
    begins_with ends_with trim_end_matches
parse_runs = refl

stage_app_runs : stage_app key_of acme_env built_app ≡ ok acme_app
unfolding stage_app product_name public_origin required trimmed_between parse_public_origin trim
    trim_start trim_end is_whitespace strip_prefix any_char has_query is_private contains_char
    begins_with ends_with trim_end_matches externalize_runtime replace_exact_scripts replace_loop
    replace_title break_at contains reject_template_placeholders without_html_comments comment_loop
    prune_unreferenced_assets reach_loop contains_bytes in_windows starts_with_bytes bytes utf8
    has_extension html_escape replace_char split
stage_app_runs = refl

stage_app_sound_example : IsShipped acme_env acme_app
stage_app_sound_example = stage_app_sound key_of acme_env built_app acme_app stage_app_runs
