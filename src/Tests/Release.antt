-- ===== src/Tests/Release.antt =====
-- A release of a page and of the app, on concrete files.
use rust_v.Prelude.{String, ◌≡◌, refl, none, [], ◌∷◌, ok}
use rust_v.Prelude.Sorted.{insert, sorted_set}
use rust_v.Prelude.Text.Order.{text_lt}
use rust_v.Prelude.Text.Search.{strip_prefix, break_at, contains}
use rust_v.Xtask.Origin.{static, DiscoveryConfig}
use rust_v.Xtask.Sitemap.{discovery_files}
use rust_v.Xtask.Html.{
  has_client_handler, handler_loop, strip_runtime, replace_loop, replace_exact_scripts,
  replace_module_scripts, checked_static, without_html_comments, comment_loop,
  reject_template_placeholders, check_identity, assert_release_html,
}
use rust_v.Xtask.Assets.{prune_unreferenced_assets, reach_loop}
use rust_v.Xtask.Release.{Page, Release, route_for_html, stage_page, stage_pages, stage}
use rust_v.Xtask.Release.Routes.{IsSound, stage-IsSound}

abbrev pub key_of : String → String
key_of text = "key"

abbrev acme : DiscoveryConfig
acme = record {
  site_url = "https://acme.org";
  app_url = "https://app.acme.org";
  product_name = "Acme";
  product_summary = "Tools";
  social_image_url = "https://acme.org/c.png";
  last_modified = "2026-01-02";
  runtime = static;
  google_verification_file = none;
}

abbrev home : Page
home = record {
  parents = [];
  stem = "index";
  html = "<b type=\"application/ld+json\">Acme Tools https://acme.org/c.png</b>";
}

abbrev acme_release : Release
acme_release = record {
  pages = home ∷ [];
  assets = [];
  routes = "/" ∷ [];
  files = discovery_files key_of acme ("/" ∷ []);
}

stage_runs : stage key_of acme (home ∷ []) [] ≡ ok acme_release
unfolding stage stage_pages stage_page route_for_html strip_runtime has_client_handler handler_loop
    replace_exact_scripts replace_loop replace_module_scripts checked_static assert_release_html
    reject_template_placeholders without_html_comments comment_loop check_identity break_at
    strip_prefix contains sorted_set insert text_lt prune_unreferenced_assets reach_loop
stage_runs = refl

stage-IsSound_example : IsSound acme (home ∷ []) [] acme_release
stage-IsSound_example = stage-IsSound key_of acme (home ∷ []) [] acme_release stage_runs
