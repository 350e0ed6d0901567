-- ===== src/Xtask/App/Bundle.antt =====
-- tooling/xtask/src/discovery.rs: what holds of a release of the app.
use Prim.Native.String
use rust_v.Prelude.{
  String, ◌≡◌, refl, subst, Bool, true, false, not, ◌||◌, Option, List, [], ◌∷◌, All, ok, bind-ok,
  ok-injective, inl, inr, arith, Bool-cases,
}
use rust_v.Prelude.Text.{str_eq}
use rust_v.Prelude.Text.Search.{contains}
use rust_v.Xtask.{
  Refusal, no_noindex, inline_script, not_compiled, forbidden_origin, starter_identity,
  template_placeholder,
}
use rust_v.Xtask.Origin.{product_name, public_origin}
use rust_v.Xtask.Html.{
  replace_title, externalize_runtime, reject_template_placeholders, without_html_comments,
  placeholders, local_origins,
}
use rust_v.Xtask.Release.{check}
use rust_v.Xtask.Release.Pages.{refuse_any-ok}
use rust_v.Xtask.Release.Routes.{check-ok}
use rust_v.Xtask.App.{
  Built, AppRelease, files_of, bundle_contains, extension_contains, demand, original_of, stage_app,
  release_of,
}

demand-ok :
    (test : String → Bool) (refusal : String → Refusal) (texts : List String) (u : Unit {0})
    → demand test refusal texts ≡ ok u
    → All (λ (t : String). test t ≡ true) texts
demand-ok test refusal [] u h = tt
demand-ok test refusal (text ∷ texts) u h = elim (Bool-cases (test text)) [
  | inl k ↦ (k, demand-ok test refusal texts u (rw k at h))
  | inr k ↦ absurd (ground arith)
]

-- What a release of the app promises.
pub record IsShipped (env : String → Option String) (release : AppRelease) : Type 0 where
  pub site_url : String
  pub api_url : String
  pub name : String
  pub site : public_origin env "PUBLIC_SITE_URL" ≡ ok site_url
  pub api : public_origin env "PUBLIC_API_URL" ≡ ok api_url
  pub named : product_name env ≡ ok name
  pub no_inline_script : contains "<script>" release.index ≡ false
  pub no_placeholder :
      All (λ (t : String). contains t (without_html_comments release.index) ≡ false) placeholders
  pub compiled :
      All
        (λ (t : String). extension_contains "wasm" (files_of release) t ≡ true)
        (site_url ∷ api_url ∷ name ∷ [])
  pub no_local_origin :
      All (λ (t : String). not (bundle_contains (files_of release) t) ≡ true) local_origins
  pub no_starter : (str_eq name "rust-v2" || not (contains "rust-v2" release.index)) ≡ true
  pub crawlers : release.robots ≡ "User-agent: *\nDisallow: /\n"

-- Every release of the app that `stage_app` returns: the page holds no inline script and, outside
-- comments, no placeholder of the template; some WebAssembly file holds each of the two public origins
-- and the product's name, which the environment gives; no file holds a local origin; the starter's
-- name is not in the page of another product; and crawlers are sent away.
pub stage_app_sound :
    (short_hash : String → String) (env : String → Option String) (built : Built)
    (release : AppRelease)
    → stage_app short_hash env built ≡ ok release
    → IsShipped env release
unfolding stage_app reject_template_placeholders
stage_app_sound short_hash env built release h =
    let (original, e0, h0) = bind-ok (original_of built.index) h in
    let (site_url, e1, h1) = bind-ok (public_origin env "PUBLIC_SITE_URL") h0 in
    let (api_url, e2, h2) = bind-ok (public_origin env "PUBLIC_API_URL") h1 in
    let (name, e3, h3) = bind-ok (product_name env) h2 in
    let (u4, e4, h4) =
      bind-ok (check (contains "noindex,nofollow,noarchive" original) no_noindex) h3 in
    let external = externalize_runtime short_hash original [] in
    let (html, e5, h5) = bind-ok (replace_title external.0 (String.◌++◌ name " — app")) h4 in
    let (u6, e6, h6) = bind-ok (reject_template_placeholders html) h5 in
    let (u7, e7, h7) = bind-ok (check (not (contains "<script>" html)) inline_script) h6 in
    let made = release_of html external.1 built in
    let texts : List String = site_url ∷ api_url ∷ name ∷ [] in
    let (u8, e8, h8) =
      bind-ok (demand (extension_contains "wasm" (files_of made)) not_compiled texts) h7 in
    let clean = λ (origin : String). not (bundle_contains (files_of made) origin) in
    let (u9, e9, h9) = bind-ok (demand clean forbidden_origin local_origins) h8 in
    let starter = str_eq name "rust-v2" || not (contains "rust-v2" html) in
    let (u10, e10, h10) = bind-ok (check starter starter_identity) h9 in
    let inline = check-ok (not (contains "<script>" html)) inline_script u7 e7 in
    subst (λ (r : AppRelease). IsShipped env r) (ok-injective h10)
      (record {
        site_url = site_url;
        api_url = api_url;
        name = name;
        site = e1;
        api = e2;
        named = e3;
        no_inline_script = ground arith;
        no_placeholder =
            refuse_any-ok template_placeholder (without_html_comments html) placeholders u6 e6;
        compiled = demand-ok (extension_contains "wasm" (files_of made)) not_compiled texts u8 e8;
        no_local_origin = demand-ok clean forbidden_origin local_origins u9 e9;
        no_starter = check-ok starter starter_identity u10 e10;
        crawlers = refl;
      })
